-- ===== src/Controller/Replay/Metrics.antt =====
-- getMetricValue and extractMetricValueFromResponse of internal/controller/mdaireplay_adapter.go, which
-- the finalize of replays waits for. The HTTP client and the parser of the Prometheus text format are
-- arguments, through their answers; `F` is the type of the floating-point numbers.
use Prim.Native.String
use mdai_operator.Prelude.{
  ◌≡◌, refl, String, List, [], ◌∷◌, Option, none, some, Bool, true, false, not, Dict, lookup, arith,
  Option-cases, inl, inr,
}
use mdai_operator.Controller.Operation.{requeue_after}
use mdai_operator.Controller.Lifecycle.{
  ApiError, other_error, Api, Request, work, hold, no_hook, requeue_time,
}
use mdai_operator.Controller.Lifecycle.Removal.{deletion_held}
use mdai_operator.Controller.Adapters.{replayer_name}
use mdai_operator.Controller.Replay.{
  ReplayRequest, queue_metric, QueueSize, size, metric_failed, ReplayState, ReplayApi,
  replay_finalizer, queue_result, queue_hook, replay_ensure_deletion_processed,
}

-- A metric of any other type has neither.
pub record Metric (F : Type 0) : Type 0 where
  pub gauge : Option F
  pub counter : Option F

-- The answer of the parser for the body of a response.
pub data Families (F : Type 0) : Type 0 where
  families : Dict (List (Metric F)) → Families F
  not_parsed : ApiError → Families F

-- The request cannot be made, it is not answered, or the body of its response is read.
pub data Response (F : Type 0) : Type 0 where
  no_request : ApiError → Response F
  no_response : ApiError → Response F
  response : Families F → Response F

pub data MetricValue (F : Type 0) : Type 0 where
  metric_value : F → MetricValue F
  no_metric : ApiError → MetricValue F

unfoldable pub default_metrics_url : (service_name namespace : String) → String
default_metrics_url service_name namespace = String.◌++◌ "http://" (
    String.◌++◌ service_name
      (String.◌++◌ "." (String.◌++◌ namespace ".svc.cluster.local:8888/metrics")))

module _ {F : Type 0} where
  -- The loop over the metrics of the family.
  unfoldable pub first_value : String → List (Metric F) → MetricValue F
  first_value name [] = no_metric (
      other_error
        (String.◌++◌ "found metrics with name " (String.◌++◌ name " but need gauge or counter")))
  first_value name (m ∷ ms) =
      let rest = first_value name ms in
      elim m.gauge [
        | some v ↦ metric_value v
        | none ↦ elim m.counter [ some v ↦ metric_value v | none ↦ rest ]
      ]

  unfoldable pub extract_metric_value_from_response : String → Families F → MetricValue F
  unfolding first_value lookup
  extract_metric_value_from_response name (not_parsed e) = no_metric e
  extract_metric_value_from_response name (families fs) = elim (lookup name fs) [
    | none ↦ no_metric (other_error (String.◌++◌ "metric " (String.◌++◌ name " not found")))
    | some ms ↦ first_value name ms
  ]

  unfoldable pub get_metric_value : String → Response F → MetricValue F
  unfolding extract_metric_value_from_response
  get_metric_value name (no_request e) = no_metric e
  get_metric_value name (no_response e) = no_metric e
  get_metric_value name (response fs) = extract_metric_value_from_response name fs

  module _ (is_positive : F → Bool) where
    -- What `finalize` makes of the value.
    unfoldable pub queue_size : MetricValue F → QueueSize
    queue_size (metric_value v) = size (is_positive v)
    queue_size (no_metric e) = metric_failed e

    unfoldable pub sending_queue : Response F → QueueSize
    unfolding queue_size get_metric_value
    sending_queue r = queue_size (get_metric_value "otelcol_exporter_queue_size" r)

    -- The values of the gauges and counters of a family, in order.
    unfoldable pub family_values : List (Metric F) → List F
    family_values [] = []
    family_values (m ∷ ms) =
        let rest = family_values ms in
        elim m.gauge [
          | some v ↦ v ∷ rest
          | none ↦ elim m.counter [ some v ↦ v ∷ rest | none ↦ rest ]
        ]

    -- The metric was read, and its first value is not above zero.
    unfoldable pub is_drained : Response F → Bool
    unfolding family_values lookup
    is_drained (response (families fs)) = elim (lookup "otelcol_exporter_queue_size" fs) [
      | none ↦ false
      | some ms ↦ elim (family_values ms) [ [] ↦ false | v ∷ vs ↦ not (is_positive v) ]
    ]
    is_drained _ = false

    -- The error of a metric that was not read.
    unfoldable pub reading_error : QueueSize → Option ApiError
    reading_error (size b) = none
    reading_error (metric_failed e) = some e

    not_drained :
        (name : String) (ms : List (Metric F))
        → (elim (family_values ms) [ [] ↦ false | v ∷ vs ↦ not (is_positive v) ]) ≡ false
        → queue_result (queue_size (first_value name ms))
          ≡ hold (reading_error (queue_size (first_value name ms)))
    unfolding family_values first_value queue_size queue_result reading_error
    not_drained name [] h = refl
    not_drained name (m ∷ ms) h = ground (arith, not_drained name ms)

    sending_queue-holds :
        (r : Response F)
        → is_drained r ≡ false
        → queue_result (sending_queue r) ≡ hold (reading_error (sending_queue r))
    unfolding is_drained sending_queue get_metric_value extract_metric_value_from_response
        queue_size queue_result reading_error
    sending_queue-holds (no_request e) h = refl
    sending_queue-holds (no_response e) h = refl
    sending_queue-holds (response (not_parsed e)) h = refl
    sending_queue-holds (response (families fs)) h =
        elim (Option-cases (lookup "otelcol_exporter_queue_size" fs)) [
          | inl p ↦ ground arith
          | inr p ↦ ground (arith, not_drained "otelcol_exporter_queue_size" p.0)
        ]

-- The replays whose metric is read from the collector's endpoint; `respond` has the answer for a URL.
abbrev pub reading :
    {F : Type 0}
    → (is_positive : F → Bool) (hub_name : String)
      (respond : List (Request ReplayRequest) → (url : String) → Response F)
    → Api ReplayRequest
    → ReplayApi
reading is_positive hub_name respond api = record {
  api = api;
  on_metric = λ sent name namespace.
      sending_queue is_positive
        (respond sent (default_metrics_url (replayer_name name hub_name "service") namespace));
}

module _ {F : Type 0} (is_positive : F → Bool) (hub_name : String)
    (respond : List (Request ReplayRequest) → (url : String) → Response F)
    (api : Api ReplayRequest) where
  -- The answer for a state.
  abbrev pub answered : ReplayState → Response F
  answered s =
      respond s.sent (
        default_metrics_url (replayer_name s.resource.name hub_name "service") s.resource.namespace)

  -- For a replay that is deleted with its finalizer on it and whose sending queue is not ignored: while
  -- the first gauge or counter of `otelcol_exporter_queue_size` was not read, or is above zero, the
  -- deletion is asked for again after five seconds, with the error of the reading if there is one, the
  -- resource is left as it is, and only the metric was asked for. Further values of the metric are not
  -- looked at.
  pub undrained-held :
      (s : ReplayState)
      → s.resource.deleting ≡ true
      → api.contains_finalizer replay_finalizer s.resource.finalizers ≡ true
      → is_drained is_positive (answered s) ≡ false
      → replay_ensure_deletion_processed (reading is_positive hub_name respond api) false s ≡ (
        requeue_after requeue_time
            (reading_error is_positive (sending_queue is_positive (answered s))),
        record s { sent = work (queue_metric s.resource.name s.resource.namespace) ∷ s.sent },
      )
  unfolding replay_ensure_deletion_processed queue_hook
  undrained-held s d f h =
      deletion_held api replay_finalizer
        (queue_hook (reading is_positive hub_name respond api) false) no_hook s _ d f
        (sending_queue-holds is_positive (answered s) h)
