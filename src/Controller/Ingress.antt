-- ===== src/Controller/Ingress.antt =====
-- internal/controller/mdaiingress_controller.go, Build of internal/manifests/collector/collector.go
-- and NewOtelIngressConfig of api/v1/mdaiingress_config.go, whose pair is two arguments here.
pub mod Orphans
use mdai_operator.Prelude.{
  ℕ, String, List, [], ◌∷◌, ◌++◌, Option, none, some, Bool, true, false, not, ◌||◌, ◌==◌, is_nil,
  if◌then◌else◌,
}
use mdai_operator.Api.{MdaiIngress}
use mdai_operator.Controller.Desired.{
  Desired, Sent, ObjectApi, DesiredOutcome, reconcile_desired_objects,
}
use mdai_operator.Manifests.Services.{
  Otelcol, PortsAnswer, Built, skipped, panicked, build_failed, built, BuiltService,
  grpc_service_of, non_grpc_service_of,
}
use mdai_operator.Manifests.Rules.{PathsAnswer, BuiltIngress, ingress_of}

pub data Manifest : Type 0 where
  ingress_manifest : BuiltIngress → Manifest
  service_manifest : BuiltService → Manifest

unfoldable pub as_manifest : {A : Type 0} → (A → Manifest) → Built A → Built Manifest
as_manifest f skipped = skipped
as_manifest f panicked = panicked
as_manifest f (build_failed e) = build_failed e
as_manifest f (built a) = built (f a)

-- The loop of Build over the factories: the first error ends it, and nil objects are left out.
unfoldable pub collect : List (Built Manifest) → Built (List Manifest)
collect [] = built []
collect (skipped ∷ bs) = collect bs
collect (panicked ∷ bs) = panicked
collect (build_failed e ∷ bs) = build_failed e
collect (built m ∷ bs) =
    let rest = collect bs in
    elim rest [
      | skipped ↦ skipped
      | panicked ↦ panicked
      | build_failed e ↦ build_failed e
      | built ms ↦ built (m ∷ ms)
    ]

-- An answer of the API server to a Get or a List.
pub data Fetched (A : Type 0) : Type 0 where
  fetched : A → Fetched A
  missing : Fetched A
  fetch_failed : String → Fetched A

pub data IngressOutcome : Type 0 where
  finished incorrect_reference crashed : IngressOutcome
  reconcile_failed : String → IngressOutcome
  objects_left : DesiredOutcome → IngressOutcome

-- The zero value, which is used if the collector is not found.
abbrev pub no_otelcol : Otelcol
no_otelcol = record {
  name = [];
  namespace = [];
  labels = none;
  annotations = [];
  image = [];
  mode = "";
  ports = [];
  ingress_type = "";
  rule_type = "";
  ingress_class_name = none;
}

-- The API server's answers about the ingress and its collector, and the owned services and ingresses
-- by their UIDs.
pub record IngressApi : Type 0 where
  pub objects : ObjectApi
  pub on_get : (namespace name : String) → Fetched MdaiIngress
  pub on_get_otelcol : (namespace name : String) → Fetched Otelcol
  pub owned_services : (namespace owner : String) → Fetched (List String)
  pub owned_ingresses : (namespace owner : String) → Fetched (List String)

-- The code of other packages: regular expressions, Unicode, and the ports of a collector.
pub record Collectors : Type 0 where
  pub is_filtered : String → Bool
  pub unicode_lower : ℕ → ℕ
  pub receiver_ports : Otelcol → PortsAnswer
  pub all_ports : Otelcol → PortsAnswer
  pub receiver_paths : Otelcol → PathsAnswer
  pub as_desired : Manifest → Desired

module _ (env : Collectors) where
  -- BuildCollector
  unfoldable pub build_collector : Otelcol → MdaiIngress → Built (List Manifest)
  unfolding collect as_manifest ingress_of grpc_service_of non_grpc_service_of
  build_collector otelcol ingress = collect (
      as_manifest ingress_manifest (ingress_of env.unicode_lower env.receiver_paths otelcol ingress)
      ∷ as_manifest service_manifest (
          grpc_service_of env.is_filtered env.unicode_lower env.receiver_ports env.all_ports otelcol
            ingress)
      ∷ as_manifest service_manifest (
          non_grpc_service_of env.is_filtered env.unicode_lower env.receiver_ports env.all_ports
            otelcol ingress)
      ∷ [])

  unfoldable pub desired_of : List Manifest → List Desired
  desired_of [] = []
  desired_of (m ∷ ms) = env.as_desired m ∷ desired_of ms

  module _ (api : IngressApi) where
    -- findMdaiIngressOwnedObjects: services, then ingresses.
    unfoldable pub owned_objects : MdaiIngress → Fetched (List String)
    owned_objects i = elim (api.owned_services i.namespace i.name) [
      | missing ↦ missing
      | fetch_failed e ↦ fetch_failed e
      | fetched services ↦ elim (api.owned_ingresses i.namespace i.name) [
        | missing ↦ missing
        | fetch_failed e ↦ fetch_failed e
        | fetched ingresses ↦ fetched (services ++ ingresses)
      ]
    ]

    unfoldable pub finish : DesiredOutcome × Sent → IngressOutcome × Sent
    finish (DesiredOutcome.reconciled, sent) = (finished, sent)
    finish (DesiredOutcome.delete_failed e, sent) =
        (objects_left (DesiredOutcome.delete_failed e), sent)
    finish (DesiredOutcome.create_failed es, sent) =
        (objects_left (DesiredOutcome.create_failed es), sent)
    finish (DesiredOutcome.prune_failed es, sent) =
        (objects_left (DesiredOutcome.prune_failed es), sent)

    -- With the desired objects; a list is never missing.
    unfoldable pub with_owned : List Desired → Fetched (List String) → IngressOutcome × Sent
    unfolding finish reconcile_desired_objects
    with_owned desired missing = (finished, [])
    with_owned desired (fetch_failed e) = (reconcile_failed e, [])
    with_owned desired (fetched owned) =
        finish (reconcile_desired_objects api.objects desired owned [])

    unfoldable pub with_manifests : MdaiIngress → Built (List Manifest) → IngressOutcome × Sent
    unfolding with_owned desired_of owned_objects
    with_manifests i skipped = with_owned [] (owned_objects i)
    with_manifests i panicked = (crashed, [])
    with_manifests i (build_failed e) = (reconcile_failed e, [])
    with_manifests i (built ms) = with_owned (desired_of ms) (owned_objects i)

    unfoldable pub with_otelcol : MdaiIngress → Fetched Otelcol → IngressOutcome × Sent
    unfolding with_manifests build_collector
    with_otelcol i (fetch_failed e) = (reconcile_failed e, [])
    with_otelcol i missing = with_manifests i (build_collector no_otelcol i)
    with_otelcol i (fetched otelcol) = with_manifests i (build_collector otelcol i)

    unfoldable pub with_ingress : Fetched MdaiIngress → IngressOutcome × Sent
    unfolding with_otelcol
    with_ingress missing = (finished, [])
    with_ingress (fetch_failed e) = (reconcile_failed e, [])
    with_ingress (fetched i) =
        if i.otel_collector == ""
        then (incorrect_reference, [])
        else with_otelcol i (api.on_get_otelcol i.namespace i.otel_collector)

    -- `Reconcile`, with the requests on owned objects, the last one first.
    unfoldable pub reconcile_ingress : (namespace name : String) → IngressOutcome × Sent
    unfolding with_ingress
    reconcile_ingress namespace name = with_ingress (api.on_get namespace name)

-- IndexerOtelCol
unfoldable pub indexer_otel_col : MdaiIngress → List String
indexer_otel_col i = if i.otel_collector == "" then [] else i.otel_collector ∷ []

-- An event of a watch, with the object before and after an update.
pub data WatchEvent (A : Type 0) : Type 0 where
  create_event delete_event generic_event : A → WatchEvent A
  update_event : (old new : A) → WatchEvent A

-- mdaiIngressPredicates; `same_spec` is reflect.DeepEqual on the specifications.
unfoldable pub mdai_ingress_predicates :
    (otel_col_exists : (name namespace : String) → Bool)
    → (same_spec : MdaiIngress → MdaiIngress → Bool) → WatchEvent MdaiIngress
    → Bool
mdai_ingress_predicates exists same_spec (create_event i) = exists i.otel_collector i.namespace
mdai_ingress_predicates exists same_spec (update_event old new) =
    if same_spec old new
    then false
    else exists new.otel_collector new.namespace || exists old.otel_collector old.namespace
mdai_ingress_predicates exists same_spec (delete_event i) = false
mdai_ingress_predicates exists same_spec (generic_event i) = false

unfoldable pub otelcol_predicates :
    (same_config : Otelcol → Otelcol → Bool) → WatchEvent Otelcol → Bool
otelcol_predicates same_config (create_event c) = true
otelcol_predicates same_config (update_event old new) = not (same_config old new)
otelcol_predicates same_config (delete_event c) = true
otelcol_predicates same_config (generic_event c) = false

-- findMdaiIngress: the first ingress of the index.
unfoldable pub find_mdai_ingress : Fetched (List MdaiIngress) → Option String
find_mdai_ingress (fetched []) = none
find_mdai_ingress (fetched (i ∷ is)) = some i.name
find_mdai_ingress missing = none
find_mdai_ingress (fetch_failed e) = none

-- requeueByCollectorRef: the name and namespace that are queued.
unfoldable pub requeue_by_collector_ref :
    ((namespace collector : String) → Fetched (List MdaiIngress))
    → (namespace collector : String) → List (String × String)
unfolding find_mdai_ingress
requeue_by_collector_ref list namespace collector =
    elim (find_mdai_ingress (list namespace collector)) [
      | none ↦ []
      | some name ↦ (name, namespace) ∷ []
    ]
