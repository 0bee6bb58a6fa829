-- ===== src/Controller/Observer.antt =====
-- getObserverCollectorConfig and getObserverFilterProcessorConfig of internal/controller/observer.go.
-- The base configuration, a file that is embedded and parsed as YAML, is the configuration that the
-- function starts from: the names of its receivers and exporters, and the blocks that are changed.
pub mod Wired
pub mod Valid
use Prim.Native.String
use mdai_operator.Prelude.{
  ℕ, String, List, [], ◌∷◌, ◌++◌, Option, none, some, ◌==◌, Dict, insert, if◌then◌else◌,
}
use mdai_operator.Api.{Observer, ObserverFilter, ObserverResource}
use mdai_operator.Controller.Collector.{Pipeline}

pub data Processor : Type 0 where
  group_by : (keys : List String) → Processor
  filter_logs : (error_mode : Option String) → (log_record : List String) → Processor
  base_processor : String → Processor

pub data Connector : Type 0 where
  data_volume : (labels : List String) → (count bytes : Option String) → Connector
  base_connector : String → Connector

-- `own_logs` is the endpoint in `service.telemetry.logs`.
pub record ObserverConfig : Type 0 where
  pub receivers : List String
  pub max_recv_msg_size_mib : Option ℕ
  pub processors : Dict Processor
  pub connectors : Dict Connector
  pub exporters : List String
  pub pipelines : Dict Pipeline
  pub own_logs : Option String

unfoldable pub group_key : Observer → String
group_key o = String.◌++◌ "groupbyattrs/" o.name

unfoldable pub volume_key : Observer → String
volume_key o = String.◌++◌ "datavolume/" o.name

unfoldable pub filter_key : Observer → String
filter_key o = String.◌++◌ "filter/" o.name

unfoldable pub logs_key : Observer → String
logs_key o = String.◌++◌ "logs/" o.name

unfoldable pub traces_key : Observer → String
traces_key o = String.◌++◌ "traces/" o.name

unfoldable pub set_processor : String → Processor → ObserverConfig → ObserverConfig
unfolding insert
set_processor key p c = record c { processors = insert key p c.processors }

unfoldable pub set_connector : String → Connector → ObserverConfig → ObserverConfig
unfolding insert
set_connector key x c = record c { connectors = insert key x c.connectors }

unfoldable pub set_pipeline : String → Pipeline → ObserverConfig → ObserverConfig
unfolding insert
set_pipeline key p c = record c { pipelines = insert key p c.pipelines }

-- getObserverFilterProcessorConfig; an empty `log_record` is not set.
unfoldable pub filter_processor : ObserverFilter → Processor
filter_processor f = filter_logs f.error_mode f.log_record

unfoldable pub set_filter : Observer → Option ObserverFilter → ObserverConfig → ObserverConfig
unfolding set_processor filter_key filter_processor
set_filter o none c = c
set_filter o (some f) c = set_processor (filter_key o) (filter_processor f) c

unfoldable pub filter_names : Observer → Option ObserverFilter → List String
unfolding filter_key
filter_names o none = []
filter_names o (some f) = filter_key o ∷ []

unfoldable pub observer_pipeline : Observer → Pipeline
unfolding filter_names group_key volume_key
observer_pipeline o = record {
  receivers = "otlp" ∷ [];
  processors = filter_names o o.filter ++ "batch" ∷ group_key o ∷ [];
  exporters = volume_key o ∷ [];
}

-- The processors and the connector of an observer.
unfoldable pub add_components : Observer → ObserverConfig → ObserverConfig
unfolding set_processor set_connector set_filter group_key volume_key
add_components o c = set_filter o o.filter (
    set_connector (volume_key o)
      (data_volume o.label_resource_attributes o.count_metric_name o.bytes_metric_name)
      (set_processor (group_key o) (group_by o.label_resource_attributes) c))

-- One round of the loop.
unfoldable pub add_observer : Observer → ObserverConfig → ObserverConfig
unfolding add_components set_pipeline observer_pipeline logs_key traces_key
add_observer o c =
    set_pipeline (traces_key o) (observer_pipeline o)
      (set_pipeline (logs_key o) (observer_pipeline o) (add_components o c))

-- The loop, with `dataVolumeReceivers`.
unfoldable pub add_observers :
    List Observer → List String → ObserverConfig → List String × ObserverConfig
unfolding add_observer volume_key
add_observers [] volumes c = (volumes, c)
add_observers (o ∷ os) volumes c =
    add_observers os (volumes ++ volume_key o ∷ []) (add_observer o c)

unfoldable pub output_pipeline : List String → Pipeline
output_pipeline volumes = record {
  receivers = volumes;
  processors = "deltatocumulative" ∷ [];
  exporters = "prometheus" ∷ [];
}

unfoldable pub set_max_size : Option ℕ → ObserverConfig → ObserverConfig
set_max_size none c = c
set_max_size (some size) c = record c { max_recv_msg_size_mib = some size }

unfoldable pub set_own_logs : Option String → ObserverConfig → ObserverConfig
set_own_logs none c = c
set_own_logs (some endpoint) c = if endpoint == "" then c else record c { own_logs = some endpoint }

unfoldable pub observer_config : List Observer → ObserverResource → ObserverConfig → ObserverConfig
unfolding add_observers output_pipeline set_max_size set_own_logs set_pipeline
observer_config observers resource base =
    let (volumes, c) =
      add_observers observers [] (set_max_size resource.grpc_receiver_max_msg_size base) in
    set_own_logs resource.own_logs_otlp_endpoint
      (set_pipeline "metrics/observeroutput" (output_pipeline volumes) c)
