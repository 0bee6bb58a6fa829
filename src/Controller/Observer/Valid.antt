-- ===== src/Controller/Observer/Valid.antt =====
-- The validity of the whole configuration of internal/controller/observer.go.
use mdai_operator.Prelude.{
  ℕ, ◌≡◌, refl, sym, ap, ◌∙◌, append_assoc, append-nil, String, List, [], ◌∷◌, ◌++◌, Option, none,
  some, Bool, true, false, ◌&&◌, ◌==◌, arith, map, lookup, lookup_after-insert, all, if◌then◌else◌,
  and-eq-true,
}
use mdai_operator.Api.{Observer, ObserverFilter, ObserverResource}
use mdai_operator.Controller.Collector.{Pipeline}
use mdai_operator.Controller.Collector.Routed.{all-implies, all-append}
use mdai_operator.Controller.Observer.{
  data_volume, group_by, ObserverConfig, group_key, volume_key, filter_key, logs_key, traces_key,
  set_processor, set_connector, set_pipeline, filter_processor, set_filter, filter_names,
  observer_pipeline, add_components, add_observer, add_observers, output_pipeline, set_max_size,
  set_own_logs, observer_config,
}
use mdai_operator.Controller.Observer.Wired.{
  has, is_source, is_sink, fits, is_valid, has_base, Grows, Grows-refl, Grows-trans, has-insert,
  has_inserted, Grows-set_processor, Grows-set_connector, fits-Grows, valid-Grows,
  valid-set_pipeline,
}

Grows-set_filter :
    (o : Observer) (f : Option ObserverFilter) (c : ObserverConfig)
    → Grows c (set_filter o f c)
      × (((set_filter o f c).pipelines ≡ c.pipelines)
          × (all (has (set_filter o f c).processors) (filter_names o f) ≡ true))
unfolding set_filter filter_names set_processor
Grows-set_filter o none c = (Grows-refl c, (refl, refl))
Grows-set_filter o (some f) c = (
  Grows-set_processor (filter_key o) (filter_processor f) c,
  (refl, rw (has_inserted (filter_key o) (filter_processor f) c.processors) refl),
)

-- What a pipeline of the observer needs of a configuration.
fits_observer :
    (o : Observer) (d : ObserverConfig)
    → has_base d ≡ true
    → all (has d.processors) (filter_names o o.filter) ≡ true
    → has d.processors (group_key o) ≡ true
    → is_sink d (volume_key o) ≡ true
    → fits d (observer_pipeline o) ≡ true
unfolding observer_pipeline
fits_observer o d b f g v =
    ground (
      arith,
      all-append (has d.processors) (filter_names o o.filter) ("batch" ∷ group_key o ∷ []) f,
    )

Grows-add_components :
    (o : Observer) (c : ObserverConfig)
    → has_base c ≡ true
    → Grows c (add_components o c)
      × (((add_components o c).pipelines ≡ c.pipelines)
          × ((fits (add_components o c) (observer_pipeline o) ≡ true)
              × (is_source (add_components o c) (volume_key o) ≡ true)))
unfolding add_components set_processor set_connector
Grows-add_components o c b =
    let keys = group_by o.label_resource_attributes in
    let volume = data_volume o.label_resource_attributes o.count_metric_name o.bytes_metric_name in
    let c1 = set_processor (group_key o) keys c in
    let c2 = set_connector (volume_key o) volume c1 in
    let first = Grows-set_processor (group_key o) keys c in
    let second = Grows-set_connector (volume_key o) volume c1 in
    let (third, (same, filtered)) = Grows-set_filter o o.filter c2 in
    let all_three = Grows-trans c c1 _ first (Grows-trans c1 c2 _ second third) in
    let grouped : has c2.processors (group_key o) ≡ true =
      has_inserted (group_key o) keys c.processors in
    let sunk : is_sink c2 (volume_key o) ≡ true =
      ground (arith, has_inserted (volume_key o) volume c1.connectors) in
    let sourced : is_source c2 (volume_key o) ≡ true =
      ground (arith, has_inserted (volume_key o) volume c1.connectors) in
    (
      all_three,
      (
        same,
        (
          fits_observer o (set_filter o o.filter c2) (all_three.base b) filtered
              (third.processors (group_key o) grouped) (third.sinks (volume_key o) sunk),
          third.sources (volume_key o) sourced,
        ),
      ),
    )

Grows-set_pipeline : (k : String) (p : Pipeline) (c : ObserverConfig) → Grows c (set_pipeline k p c)
unfolding set_pipeline
Grows-set_pipeline k p c = record {
  sources = λ name h. h;
  sinks = λ name h. h;
  processors = λ name h. h;
  pipelines = λ name. has-insert k name p c.pipelines;
  base = λ h. h;
}

-- The pipelines of an observer are there.
abbrev pub is_watched : ObserverConfig → Observer → Bool
is_watched c o = has c.pipelines (logs_key o) && has c.pipelines (traces_key o)

-- A configuration with the components of the base, valid pipelines and the receivers `volumes`.
abbrev Ready : List String → ObserverConfig → Type 0
Ready volumes c = (has_base c ≡ true) × ((is_valid c ≡ true) × (all (is_source c) volumes ≡ true))

Ready-add_observer :
    (o : Observer) (volumes : List String) (c : ObserverConfig)
    → Ready volumes c
    → Grows c (add_observer o c)
      × (Ready (volumes ++ volume_key o ∷ []) (add_observer o c)
          × (is_watched (add_observer o c) o ≡ true))
unfolding add_observer set_pipeline
Ready-add_observer o volumes c (b, (v, s)) =
    let p = observer_pipeline o in
    let c1 = add_components o c in
    let c2 = set_pipeline (logs_key o) p c1 in
    let (g1, (same, (fit, source))) = Grows-add_components o c b in
    let g2 = Grows-set_pipeline (logs_key o) p c1 in
    let g3 = Grows-set_pipeline (traces_key o) p c2 in
    let g = Grows-trans c c1 (add_observer o c) g1 (Grows-trans c1 c2 (add_observer o c) g2 g3) in
    let v2 = valid-set_pipeline (logs_key o) p c1 fit (valid-Grows c c1 g1 same v) in
    let there = has_inserted (logs_key o) p c1.pipelines in
    (
      g,
      (
        (
          g.base b,
          (
            valid-set_pipeline (traces_key o) p c2 (fits-Grows c1 c2 p g2 fit) v2,
            all-append (is_source c1) volumes (volume_key o ∷ [])
                (all-implies (is_source c) (is_source c1) volumes g1.sources s) (rw source refl),
          ),
        ),
        rw (has-insert (traces_key o) (logs_key o) p c2.pipelines there)
            (has_inserted (traces_key o) p c2.pipelines),
      ),
    )

watched-Grows :
    (c d : ObserverConfig) (o : Observer)
    → Grows c d
    → is_watched c o ≡ true
    → is_watched d o ≡ true
watched-Grows c d o g h =
    let (i, j) = and-eq-true (has c.pipelines (logs_key o)) _ h in
    rw (g.pipelines (logs_key o) i) (g.pipelines (traces_key o) j)

Ready-add_observers :
    (os : List Observer) (volumes : List String) (c : ObserverConfig)
    → Ready volumes c
    → Grows c (add_observers os volumes c).1
      × (Ready (add_observers os volumes c).0 (add_observers os volumes c).1
          × (all (is_watched (add_observers os volumes c).1) os ≡ true))
unfolding add_observers
Ready-add_observers [] volumes c r = (Grows-refl c, (r, refl))
Ready-add_observers (o ∷ os) volumes c r =
    let more = volumes ++ volume_key o ∷ [] in
    let d = add_observer o c in
    let (g, (r', w)) = Ready-add_observer o volumes c r in
    let (h, (r'', ws)) = Ready-add_observers os more d r' in
    let e = (add_observers os more d).1 in
    (Grows-trans c d e g h, (r'', rw (watched-Grows d e o h w) ws))

Grows-set_max_size :
    (size : Option ℕ) (c : ObserverConfig)
    → Grows c (set_max_size size c) × ((set_max_size size c).pipelines ≡ c.pipelines)
unfolding set_max_size
Grows-set_max_size none c = (Grows-refl c, refl)
Grows-set_max_size (some size) c = (
  record {
    sources = λ name h. h;
    sinks = λ name h. h;
    processors = λ name h. h;
    pipelines = λ name h. h;
    base = λ h. h;
  },
  refl,
)

Grows-set_own_logs :
    (endpoint : Option String) (c : ObserverConfig)
    → Grows c (set_own_logs endpoint c) × ((set_own_logs endpoint c).pipelines ≡ c.pipelines)
unfolding set_own_logs
Grows-set_own_logs none c = (Grows-refl c, refl)
Grows-set_own_logs (some endpoint) c = by_endpoint (endpoint == "")
  where
    by_endpoint :
        (b : Bool)
        → Grows c (if b then c else record c { own_logs = some endpoint })
          × ((if b then c else record c { own_logs = some endpoint }).pipelines ≡ c.pipelines)
    by_endpoint true = (Grows-refl c, refl)
    by_endpoint false = (
      record {
        sources = λ name h. h;
        sinks = λ name h. h;
        processors = λ name h. h;
        pipelines = λ name h. h;
        base = λ h. h;
      },
      refl,
    )

volumes-add_observers :
    (os : List Observer) (volumes : List String) (c : ObserverConfig)
    → (add_observers os volumes c).0 ≡ volumes ++ map volume_key os
unfolding add_observers
volumes-add_observers [] volumes c = sym (append-nil volumes)
volumes-add_observers (o ∷ os) volumes c =
    volumes-add_observers os (volumes ++ volume_key o ∷ []) (add_observer o c)
    ∙ append_assoc volumes (volume_key o ∷ []) (map volume_key os)

Ready-output :
    (volumes : List String) (c : ObserverConfig)
    → Ready volumes c
    → is_valid (set_pipeline "metrics/observeroutput" (output_pipeline volumes) c) ≡ true
unfolding output_pipeline
Ready-output volumes c (b, (v, s)) =
    valid-set_pipeline "metrics/observeroutput" (output_pipeline volumes) c (ground (arith, s)) v

-- From a base configuration whose pipelines are valid and that has the components `otlp`, `batch`,
-- `deltatocumulative` and `prometheus`: in the configuration for any observers, every pipeline names
-- only components that are configured, each observer has its pipelines for logs and for traces, and
-- the pipeline of the output receives from the connector of each observer, in their order.
pub observer_config-valid :
    (os : List Observer) (resource : ObserverResource) (base : ObserverConfig)
    → has_base base ≡ true
    → is_valid base ≡ true
    → (is_valid (observer_config os resource base) ≡ true)
      × ((all (is_watched (observer_config os resource base)) os ≡ true)
          × (lookup "metrics/observeroutput" (observer_config os resource base).pipelines
              ≡ some (output_pipeline (map volume_key os))))
unfolding observer_config set_pipeline
observer_config-valid os resource base b v =
    let start = set_max_size resource.grpc_receiver_max_msg_size base in
    let (g0, same0) = Grows-set_max_size resource.grpc_receiver_max_msg_size base in
    let ready : Ready [] start = (g0.base b, (valid-Grows base start g0 same0 v, refl)) in
    let (g1, (ready1, watched)) = Ready-add_observers os [] start ready in
    let volumes = (add_observers os [] start).0 in
    let c = (add_observers os [] start).1 in
    let d = set_pipeline "metrics/observeroutput" (output_pipeline volumes) c in
    let endpoint = resource.own_logs_otlp_endpoint in
    let (g3, same3) = Grows-set_own_logs endpoint d in
    let g2 = Grows-set_pipeline "metrics/observeroutput" (output_pipeline volumes) c in
    let g = Grows-trans c d (set_own_logs endpoint d) g2 g3 in
    (
      valid-Grows d (set_own_logs endpoint d) g3 same3 (Ready-output volumes c ready1),
      (
        all-implies (is_watched c) (is_watched (set_own_logs endpoint d)) os
            (λ o. watched-Grows c (set_own_logs endpoint d) o g) watched,
        rw same3 (
            lookup_after-insert "metrics/observeroutput" "metrics/observeroutput"
              (output_pipeline volumes) c.pipelines
            ∙ ap (λ vs. some (output_pipeline vs)) (volumes-add_observers os [] start)),
      ),
    )
