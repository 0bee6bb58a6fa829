-- ===== src/Controller/Workloads/All.antt =====
-- The four workloads side by side: whose they are, the settings that a reconciliation may change, and
-- the objects that the API server can hold when only the operator writes them.
use mdai_operator.Prelude.{String, [], ◌∷◌, true, Dict}
use mdai_operator.Builder.Deployments.{Deployment}
use mdai_operator.Builder.Services.{Service}
use mdai_operator.Controller.Adapters.{scoped_collector_name, scoped_observer_name, replayer_name}
use mdai_operator.Controller.Workloads.Shared.{
  managed_by_key, managed_by_value, app_name_key, app_instance_key, bare_deployment, bare_service,
}
use mdai_operator.Controller.Workloads.Collector.{
  CollectorParams, new_collector_deployment, deploy_collector, new_collector_service,
  serve_collector,
}
use mdai_operator.Controller.Workloads.Observer.{ObserverParams, deploy_observer, serve_observer}
use mdai_operator.Controller.Workloads.Replay.{ReplayParams, deploy_replay, serve_replay}
use mdai_operator.Controller.Workloads.Dal.{
  MdaiDal, MdaiDalImageSpec, dal_container_of, deploy_dal, serve_dal,
}

pub data Owner : Type 0 where
  collector_named observer_named dal_named : (name : String) → Owner
  replay_named : (name hub_name : String) → Owner

-- What the owner's specification gives, with the hash of the configuration.
pub record Settings : Type 0 where
  pub collector : CollectorParams
  pub observer : ObserverParams
  pub replay : ReplayParams
  pub dal : MdaiDal
  pub dal_image : MdaiDalImageSpec

unfoldable pub new_deployment : Owner → Deployment
unfolding new_collector_deployment bare_deployment scoped_observer_name replayer_name
new_deployment (collector_named name) = new_collector_deployment name
new_deployment (observer_named name) = bare_deployment (scoped_observer_name name "")
new_deployment (replay_named name hub_name) =
    bare_deployment (replayer_name name hub_name "collector")
new_deployment (dal_named name) = bare_deployment name

unfoldable pub new_service : Owner → Service
unfolding new_collector_service bare_service scoped_observer_name replayer_name
new_service (collector_named name) = new_collector_service name
new_service (observer_named name) = bare_service (scoped_observer_name name "service")
new_service (replay_named name hub_name) = bare_service (replayer_name name hub_name "service")
new_service (dal_named name) = bare_service name

unfoldable pub deploy : Owner → Settings → Deployment → Deployment
unfolding deploy_collector deploy_observer deploy_replay deploy_dal dal_container_of
deploy (collector_named name) st = deploy_collector (record st.collector { name = name })
deploy (observer_named name) st = deploy_observer (record st.observer { name = name })
deploy (replay_named name hub_name) st =
    deploy_replay (record st.replay { name = name; hub_name = hub_name })
deploy (dal_named name) st = deploy_dal name (dal_container_of st.dal st.dal_image)

unfoldable pub serve : Owner → Settings → Service → Service
unfolding serve_collector serve_observer serve_replay serve_dal
serve (collector_named name) st = serve_collector name
serve (observer_named name) st = serve_observer name
serve (replay_named name hub_name) st =
    serve_replay (record st.replay { name = name; hub_name = hub_name })
serve (dal_named name) st = serve_dal name

-- The Deployment and the Service after some reconciliations, each with its own settings; the API
-- server sets the creation timestamp.
pub data Reachable (o : Owner) : Deployment → Service → Type 0 where
  start : Reachable o (new_deployment o) (new_service o)
  deployed :
      (d : Deployment) (s : Service) (st : Settings)
      → Reachable o d s
      → Reachable o (record (deploy o st d) { created = true }) s
  served :
      (d : Deployment) (s : Service) (st : Settings)
      → Reachable o d s
      → Reachable o d (record (serve o st s) { created = true })

-- The labels by which pods are selected.
unfoldable pub pod_labels : Owner → Dict String
unfolding scoped_collector_name scoped_observer_name replayer_name
pod_labels (collector_named name) = ("app", scoped_collector_name name "") ∷ []
pod_labels (observer_named name) = ("app", scoped_observer_name name "") ∷ []
pod_labels (replay_named name hub_name) = ("app", replayer_name name hub_name "collector") ∷ []
pod_labels (dal_named name) =
    (app_name_key, "mdai-dal") ∷ (managed_by_key, managed_by_value) ∷ (app_instance_key, name) ∷ []

-- The label that tells the pods of an owner from those of others.
unfoldable pub own_key : Owner → String
own_key (collector_named name) = "app"
own_key (observer_named name) = "app"
own_key (replay_named name hub_name) = "app"
own_key (dal_named name) = app_instance_key

unfoldable pub own_value : Owner → String
unfolding scoped_collector_name scoped_observer_name replayer_name
own_value (collector_named name) = scoped_collector_name name ""
own_value (observer_named name) = scoped_observer_name name ""
own_value (replay_named name hub_name) = replayer_name name hub_name "collector"
own_value (dal_named name) = name
