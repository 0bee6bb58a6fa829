-- ===== src/Controller/Adapters/DalStatus.antt =====
-- ensureStatusSetToDone of internal/controller/mdaidal_adapter.go.
use Prim.Native.String
use mdai_operator.Prelude.{
  ℕ, String, List, ◌∷◌, Option, none, some, Bool, true, false, ◌≡◌, refl, sym, ap, ◌∙◌,
}
use mdai_operator.Controller.Operation.{Reply, continue_processing, requeue}
use mdai_operator.Controller.Lifecycle.{ApiError, Condition, true_status, type_available}

pub record MdaiDalStatus : Type 0 where
  pub conditions : List Condition
  pub observed_generation : ℕ
  pub replicas : ℕ
  pub ready_replicas : ℕ
  pub endpoint : String
  pub last_synced_time : ℕ

pub record DalResource : Type 0 where
  pub name : String
  pub namespace : String
  pub generation : ℕ
  pub status : MdaiDalStatus

-- The status of a Deployment, and the names of a Service.
pub record DeploymentStatus : Type 0 where
  pub replicas : ℕ
  pub ready_replicas : ℕ

pub record ServiceMeta : Type 0 where
  pub name : String
  pub namespace : String

pub data DalAnswer (A : Type 0) : Type 0 where
  fetched : A → DalAnswer A
  fetch_failed : ApiError → DalAnswer A

-- The API server's answers, by name and namespace, SetStatusCondition and the time.
pub record DalApi : Type 0 where
  pub on_dal : (name namespace : String) → DalAnswer DalResource
  pub on_deployment : (name namespace : String) → DalAnswer DeploymentStatus
  pub on_service : (name namespace : String) → DalAnswer ServiceMeta
  pub on_status_update : DalResource → Option ApiError
  pub set_condition : Condition → List Condition → List Condition × Bool
  pub now : ℕ

-- The resource that is held, and the resources whose status was sent and accepted.
pub record DalState : Type 0 where
  pub resource : DalResource
  pub stored : List DalResource

-- Sprintf("%s.%s.svc.cluster.local:%d", name, namespace, otlpHTTPPort)
unfoldable pub service_endpoint : ServiceMeta → String
service_endpoint s =
    String.◌++◌ s.name (String.◌++◌ "." (String.◌++◌ s.namespace ".svc.cluster.local:4318"))

module _ (api : DalApi) where
  open api use {on_dal, on_deployment, on_service, on_status_update, set_condition, now}

  unfoldable pub done_status : DalResource → DeploymentStatus → ServiceMeta → DalResource
  unfolding service_endpoint
  done_status dal deployment service = record dal {
    status = record {
      conditions =
          (set_condition
            (record {
              type = type_available;
              status = true_status;
              reason = "Reconciling";
              message = "reconciled successfully";
            })
            dal.status.conditions).0;
      observed_generation = dal.generation;
      replicas = deployment.replicas;
      ready_replicas = deployment.ready_replicas;
      endpoint = service_endpoint service;
      last_synced_time = now;
    };
  }

  -- Every error of the update is requeued, a conflict without being logged as an error.
  unfoldable pub after_update : Option ApiError → DalState → Reply ApiError × DalState
  after_update none s = (continue_processing, record s { stored = s.resource ∷ s.stored })
  after_update (some e) s = (requeue, s)

  unfoldable pub store_done : DeploymentStatus → ServiceMeta → DalState → Reply ApiError × DalState
  unfolding after_update done_status
  store_done deployment service s =
      let new = done_status s.resource deployment service in
      after_update (on_status_update new) (record s { resource = new })

  unfoldable pub with_service :
      DeploymentStatus → DalAnswer ServiceMeta → DalState → Reply ApiError × DalState
  unfolding store_done
  with_service deployment (fetch_failed e) s = (requeue, s)
  with_service deployment (fetched service) s = store_done deployment service s

  unfoldable pub with_deployment : DalAnswer DeploymentStatus → DalState → Reply ApiError × DalState
  unfolding with_service
  with_deployment (fetch_failed e) s = (requeue, s)
  with_deployment (fetched deployment) s =
      with_service deployment (on_service s.resource.name s.resource.namespace) s

  unfoldable pub with_dal : DalAnswer DalResource → DalState → Reply ApiError × DalState
  unfolding with_deployment
  with_dal (fetch_failed e) s = (requeue, s)
  with_dal (fetched dal) s =
      with_deployment (on_deployment dal.name dal.namespace) (record s { resource = dal })

  unfoldable pub dal_status_set_to_done : DalState → Reply ApiError × DalState
  unfolding with_dal
  dal_status_set_to_done s = with_dal (on_dal s.resource.name s.resource.namespace) s

  abbrev pub DeployedAs : DalAnswer DeploymentStatus → DalResource → Type 0
  DeployedAs answer r = elim answer [
    | fetch_failed e ↦ false ≡ true
    | fetched d ↦ (r.status.replicas ≡ d.replicas) × (r.status.ready_replicas ≡ d.ready_replicas)
  ]

  abbrev pub ServedAs : DalAnswer ServiceMeta → DalResource → Type 0
  ServedAs answer r = elim answer [
    | fetch_failed e ↦ false ≡ true
    | fetched v ↦ r.status.endpoint ≡ service_endpoint v
  ]

  -- The status of a resource that was fetched as `dal` after `stored` were stored.
  abbrev pub ReportedAs : DalResource → List DalResource → DalState → Type 0
  ReportedAs dal stored s =
      DeployedAs (on_deployment dal.name dal.namespace) s.resource
      × (ServedAs (on_service dal.name dal.namespace) s.resource
          × ((s.resource.status.observed_generation ≡ dal.generation)
              × (s.stored ≡ s.resource ∷ stored)))

  abbrev pub FetchedAs : DalAnswer DalResource → List DalResource → DalState → Type 0
  FetchedAs answer stored s = elim answer [
    | fetch_failed e ↦ false ≡ true
    | fetched dal ↦ ReportedAs dal stored s
  ]

  after_update-stored :
      (e : Option ApiError) (s : DalState)
      → (after_update e s).0 ≡ continue_processing
      → ((after_update e s).1.resource ≡ s.resource)
        × ((after_update e s).1.stored ≡ s.resource ∷ s.stored)
  unfolding after_update
  after_update-stored none s h = (refl, refl)
  after_update-stored (some e) s h = cc

  -- The same for answers that are given.
  abbrev Reports :
      DalAnswer DeploymentStatus
      → DalAnswer ServiceMeta
      → DalResource
      → List DalResource
      → DalState
      → Type 0
  Reports deployment service dal stored s =
      DeployedAs deployment s.resource
      × (ServedAs service s.resource
          × ((s.resource.status.observed_generation ≡ dal.generation)
              × (s.stored ≡ s.resource ∷ stored)))

  with_service-Reports :
      (deployment : DeploymentStatus) (service : DalAnswer ServiceMeta) (s : DalState)
      → (with_service deployment service s).0 ≡ continue_processing
      → Reports
          (fetched deployment)
          service
          s.resource
          s.stored
          (with_service deployment service s).1
  unfolding with_service store_done done_status
  with_service-Reports deployment (fetch_failed e) s h = cc
  with_service-Reports deployment (fetched v) s h =
      let new = done_status s.resource deployment v in
      let (same, kept) =
        after_update-stored (on_status_update new) (record s { resource = new }) h in
      (
        (
          ap (λ (r : DalResource). r.status.replicas) same,
          ap (λ (r : DalResource). r.status.ready_replicas) same,
        ),
        (
          ap (λ (r : DalResource). r.status.endpoint) same,
          (
            ap (λ (r : DalResource). r.status.observed_generation) same,
            kept ∙ ap (λ r. r ∷ s.stored) (sym same),
          ),
        ),
      )

  with_deployment-Reports :
      (deployment : DalAnswer DeploymentStatus) (s : DalState)
      → (with_deployment deployment s).0 ≡ continue_processing
      → Reports deployment
          (on_service s.resource.name s.resource.namespace)
          s.resource
          s.stored
          (with_deployment deployment s).1
  unfolding with_deployment
  with_deployment-Reports (fetch_failed e) s h = cc
  with_deployment-Reports (fetched d) s h = with_service-Reports d _ s h

  with_dal-Reports :
      (answer : DalAnswer DalResource) (s : DalState)
      → (with_dal answer s).0 ≡ continue_processing
      → FetchedAs answer s.stored (with_dal answer s).1
  unfolding with_dal
  with_dal-Reports (fetch_failed e) s h = cc
  with_dal-Reports (fetched dal) s h = with_deployment-Reports _ (record s { resource = dal }) h

  -- If the reply is to continue, the resource was fetched again, and the status that was stored last
  -- has its generation, the replicas and ready replicas of the Deployment and the address of the
  -- Service with its name in its namespace, which were both found.
  pub done-FetchedAs :
      (s : DalState)
      → (dal_status_set_to_done s).0 ≡ continue_processing
      → FetchedAs
          (on_dal s.resource.name s.resource.namespace)
          s.stored
          (dal_status_set_to_done s).1
  unfolding dal_status_set_to_done
  done-FetchedAs s h = with_dal-Reports (on_dal s.resource.name s.resource.namespace) s h
