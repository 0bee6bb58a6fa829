-- ===== src/Controller/Hub/Restart.antt =====
-- createOrUpdateEnvConfigMap, listOtelCollectorsWithLabel, restartCollectorAndAudit and
-- syncComputedConfigMapsAndRestart of internal/controller/hub_adapter.go
pub mod Restarted
use Prim.Native.String
use mdai_operator.Prelude.{String, List, [], ◌∷◌, Option, none, some, true, false, member}
use mdai_operator.Controller.Operation.{Reply, Operation, continue_processing, requeue_with_error}
use mdai_operator.Controller.Lifecycle.{ApiError, conflict}
use mdai_operator.Controller.Hub.Env.{Env}
use mdai_operator.Controller.Hub.Requests.{
  Collector, upsert_config_map, list_collectors, restart, audit, Upserted, created_map, updated_map,
  unchanged_map, upsert_failed, Listed, collectors, list_failed, HubState, HubApi, send,
}

abbrev pub env_postfix : String
env_postfix = "-variables"

module _ (hub : HubApi) where
  open hub use {on_upsert, on_list, on_restart, on_audit}

  unfoldable pub create_or_update_env_config_map :
      Env → (postfix namespace : String) → HubState → Upserted × HubState
  create_or_update_env_config_map env postfix namespace s =
      let name = String.◌++◌ s.resource.name postfix in
      (on_upsert s.sent name namespace env, send (upsert_config_map name namespace env) s)

  unfoldable pub list_otel_collectors : HubState → Listed × HubState
  list_otel_collectors s =
      (on_list s.sent s.resource.name, send (list_collectors s.resource.name) s)

  -- After the update that restarts a collector: a conflict is no error, and is not audited.
  after_restart : Option ApiError → Collector → HubState → Option ApiError × HubState
  after_restart (some conflict) c s = (none, s)
  after_restart (some e) c s = (some e, s)
  after_restart none c s = (on_audit s.sent c, send (audit c) s)

  unfoldable pub restart_collector_and_audit : Collector → HubState → Option ApiError × HubState
  unfolding after_restart
  restart_collector_and_audit c s = after_restart (on_restart s.sent c) c (send (restart c) s)

  -- The first loop: an error if there is one, and the namespaces whose ConfigMap was created or
  -- updated so far.
  unfoldable pub write_maps :
      Env → List String → List Collector → HubState → (Option ApiError × List String) × HubState
  unfolding create_or_update_env_config_map
  write_maps env changed [] s = ((none, changed), s)
  write_maps env changed (c ∷ cs) s =
      let (r, s') = create_or_update_env_config_map env env_postfix c.namespace s in
      elim r [
        | created_map ↦ write_maps env (c.namespace ∷ changed) cs s'
        | updated_map ↦ write_maps env (c.namespace ∷ changed) cs s'
        | unchanged_map ↦ write_maps env changed cs s'
        | upsert_failed e ↦ ((some e, changed), s')
      ]

  -- The second loop: the collectors of the changed namespaces are restarted, up to an error.
  restart_all : List String → List Collector → HubState → Option ApiError × HubState
  unfolding restart_collector_and_audit member
  restart_all changed [] s = (none, s)
  restart_all changed (c ∷ cs) s =
      let (e, s') = restart_collector_and_audit c s in
      elim (member c.namespace changed) [
        | false ↦ restart_all changed cs s
        | true ↦ elim e [ some failure ↦ (some failure, s') | none ↦ restart_all changed cs s' ]
      ]

  finish_restarts : Option ApiError × HubState → Reply ApiError × HubState
  finish_restarts (none, s) = (continue_processing, s)
  finish_restarts (some e, s) = (requeue_with_error (some e), s)

  restart_changed :
      List Collector → (Option ApiError × List String) × HubState → Reply ApiError × HubState
  unfolding restart_all finish_restarts
  restart_changed cs ((some e, changed), s) = (requeue_with_error (some e), s)
  restart_changed cs ((none, changed), s) = finish_restarts (restart_all changed cs s)

  sync_listed : Env → Listed × HubState → Reply ApiError × HubState
  unfolding write_maps restart_changed
  sync_listed env (list_failed e, s) = (requeue_with_error (some e), s)
  sync_listed env (collectors cs, s) = restart_changed cs (write_maps env [] cs s)

  unfoldable pub sync_computed_config_maps_and_restart : Env → Operation HubState ApiError
  unfolding list_otel_collectors sync_listed
  sync_computed_config_maps_and_restart env s = sync_listed env (list_otel_collectors s)
