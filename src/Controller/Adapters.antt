-- ===== src/Controller/Adapters.antt =====
-- The adapters of collectors, observers, DALs and replays in internal/controller
-- (mdaicollector_adapter.go, mdaiobserver_adapter.go, mdaidal_adapter.go, mdaireplay_adapter.go): the
-- life cycle that they share with the hub's, their ensureSynchronized and the operations of their
-- ReconcileHandler. What an object contains is not modelled here, only that it is created or updated.
pub mod Synchronized
pub mod DalStatus
use Prim.Native.String
use mdai_operator.Prelude.{
  String, List, [], ◌∷◌, ◌++◌, Option, none, some, Bool, true, false, is_nil, ◌==◌, if◌then◌else◌,
}
use mdai_operator.Controller.Operation.{
  Reply, Operation, Outcome, reconcile_handler, continue_processing, requeue, requeue_with_error,
  requeue_on_error_or_continue,
}
use mdai_operator.Controller.Lifecycle.{
  ApiError, conflict, already_exists, Api, Request, work, State, HookResult, ObjectState, finalize,
  ensure_deletion_processed, ensure_status_initialized, ensure_finalizer_initialized,
  ensure_status_set_to_done, no_hook,
}

-- `createOrUpdate…` of an object, by its kind and name.
pub data ObjectKind : Type 0 where
  config_map service_account cluster_role cluster_role_binding deployment service : ObjectKind

pub data Upsert : Type 0 where
  upsert : ObjectKind → (name : String) → Upsert

abbrev pub hub_finalizer : String
hub_finalizer = "mydecisive.ai/finalizer"

-- A step of ensureSynchronized, with its reply to an error.
pub record SyncStep : Type 0 where
  pub object : Upsert
  pub on_error : ApiError → Reply ApiError

unfoldable pub or_continue : ApiError → Reply ApiError
or_continue e = requeue_on_error_or_continue (some e)

unfoldable pub with_error : ApiError → Reply ApiError
with_error e = requeue_with_error (some e)

-- A conflict is requeued without an error.
unfoldable pub on_conflict : (ApiError → Reply ApiError) → ApiError → Reply ApiError
on_conflict reply conflict = requeue
on_conflict reply e = reply e

abbrev pub scoped : (name base postfix : String) → String
scoped name base postfix =
    if postfix == ""
    then String.◌++◌ name (String.◌++◌ "-" base)
    else String.◌++◌ name (String.◌++◌ "-" (String.◌++◌ base (String.◌++◌ "-" postfix)))

-- getScopedMdaiCollectorResourceName
unfoldable pub scoped_collector_name : (name postfix : String) → String
scoped_collector_name name postfix = scoped name "mdai-collector" postfix

-- getScopedObserverResourceName
unfoldable pub scoped_observer_name : (name postfix : String) → String
scoped_observer_name name postfix = scoped name "mdai-observer" postfix

-- getReplayerResourceName
unfoldable pub replayer_name : (name hub_name suffix : String) → String
replayer_name name hub_name suffix =
    String.◌++◌ "replay-"
      (String.◌++◌ name (String.◌++◌ "-" (String.◌++◌ hub_name (String.◌++◌ "-" suffix))))

-- configMapName of a DAL
unfoldable pub dal_config_map_name : String → String
dal_config_map_name name = String.◌++◌ name "-mdai-dal-config"

unfoldable pub collector_steps : String → List SyncStep
unfolding or_continue on_conflict scoped_collector_name
collector_steps name =
    record {
      object = upsert config_map (scoped_collector_name name "config");
      on_error = or_continue;
    }
    ∷ record {
      object = upsert config_map (scoped_collector_name name "env");
      on_error = or_continue;
    }
    ∷ record {
      object = upsert service_account (scoped_collector_name name "sa");
      on_error = or_continue;
    }
    ∷ record {
      object = upsert cluster_role (scoped_collector_name name "role");
      on_error = or_continue;
    }
    ∷ record {
      object = upsert cluster_role_binding (scoped_collector_name name "rb");
      on_error = or_continue;
    }
    ∷ record {
      object = upsert deployment (scoped_collector_name name "");
      on_error = on_conflict or_continue;
    }
    ∷ record {
      object = upsert service (scoped_collector_name name "service");
      on_error = or_continue;
    }
    ∷ []

unfoldable pub observer_steps : String → List SyncStep
unfolding with_error on_conflict scoped_observer_name
observer_steps name =
    record {
      object = upsert config_map (scoped_observer_name name "config");
      on_error = with_error;
    }
    ∷ record {
      object = upsert deployment (scoped_observer_name name "");
      on_error = on_conflict with_error;
    }
    ∷ record {
      object = upsert service (scoped_observer_name name "service");
      on_error = with_error;
    }
    ∷ []

unfoldable pub replay_steps : (name hub_name : String) → List SyncStep
unfolding with_error on_conflict replayer_name
replay_steps name hub_name =
    record {
      object = upsert config_map (replayer_name name hub_name "collector-config");
      on_error = with_error;
    }
    ∷ record {
      object = upsert deployment (replayer_name name hub_name "collector");
      on_error = on_conflict with_error;
    }
    ∷ record {
      object = upsert service (replayer_name name hub_name "service");
      on_error = with_error;
    }
    ∷ []

unfoldable pub dal_steps : String → List SyncStep
unfolding or_continue dal_config_map_name
dal_steps name =
    record { object = upsert config_map (dal_config_map_name name); on_error = or_continue }
    ∷ record { object = upsert service name; on_error = or_continue }
    ∷ record { object = upsert deployment name; on_error = or_continue }
    ∷ []

-- createOrUpdateService and createOrUpdateDeployment of a DAL skip an object that exists already.
unfoldable pub dal_error : Upsert → Option ApiError → Option ApiError
dal_error (upsert service name) (some already_exists) = none
dal_error (upsert deployment name) (some already_exists) = none
dal_error object e = e

abbrev pub AdapterState : Type 0
AdapterState = State Upsert

-- The API server, and its answer to an object that is to be created or updated.
pub record AdapterApi : Type 0 where
  pub api : Api Upsert
  pub on_upsert : List (Request Upsert) → Upsert → Option ApiError

-- One step after the other, up to an error that `filtered` keeps.
unfoldable pub run_steps :
    (List (Request Upsert) → Upsert → Option ApiError)
    → List SyncStep
    → Operation AdapterState ApiError
run_steps answer [] s = (continue_processing, s)
run_steps answer (step ∷ steps) s =
    let after = record s { sent = work step.object ∷ s.sent } in
    let rest = run_steps answer steps after in
    elim (answer s.sent step.object) [ some e ↦ (step.on_error e, after) | none ↦ rest ]

module _ (adapter : AdapterApi) where
  open adapter use {api, on_upsert}

  unfoldable pub collector_ensure_synchronized : Operation AdapterState ApiError
  unfolding run_steps collector_steps
  collector_ensure_synchronized s = run_steps on_upsert (collector_steps s.resource.name) s

  -- Without observers nothing is synchronized.
  unfoldable pub observer_ensure_synchronized :
      (has_observers : Bool) → Operation AdapterState ApiError
  unfolding run_steps observer_steps
  observer_ensure_synchronized has_observers s =
      let synced = run_steps on_upsert (observer_steps s.resource.name) s in
      if has_observers then synced else (continue_processing, s)

  unfoldable pub replay_ensure_synchronized : (hub_name : String) → Operation AdapterState ApiError
  unfolding run_steps replay_steps
  replay_ensure_synchronized hub_name s =
      run_steps on_upsert (replay_steps s.resource.name hub_name) s

  unfoldable pub dal_ensure_synchronized : Operation AdapterState ApiError
  unfolding run_steps dal_steps dal_error
  dal_ensure_synchronized s =
      run_steps (λ sent object. dal_error object (on_upsert sent object))
        (dal_steps s.resource.name) s

  -- The three adapters without a step of their own in finalize.
  unfoldable pub collector_finalize : AdapterState → (ObjectState × Option ApiError) × AdapterState
  unfolding finalize
  collector_finalize = finalize api hub_finalizer no_hook no_hook

  unfoldable pub collector_ensure_deletion_processed : Operation AdapterState ApiError
  unfolding ensure_deletion_processed
  collector_ensure_deletion_processed = ensure_deletion_processed api hub_finalizer no_hook no_hook

  unfoldable pub collector_ensure_status_initialized : Operation AdapterState ApiError
  unfolding ensure_status_initialized
  collector_ensure_status_initialized = ensure_status_initialized api

  unfoldable pub collector_ensure_finalizer_initialized : Operation AdapterState ApiError
  unfolding ensure_finalizer_initialized
  collector_ensure_finalizer_initialized = ensure_finalizer_initialized api hub_finalizer

  unfoldable pub collector_ensure_status_set_to_done : Operation AdapterState ApiError
  unfolding ensure_status_set_to_done
  collector_ensure_status_set_to_done = ensure_status_set_to_done api

  abbrev pub collector_operations : List (Operation AdapterState ApiError)
  collector_operations =
      collector_ensure_deletion_processed ∷ collector_ensure_status_initialized
      ∷ collector_ensure_finalizer_initialized ∷ collector_ensure_synchronized
      ∷ collector_ensure_status_set_to_done ∷ []

  unfoldable pub observer_finalize : AdapterState → (ObjectState × Option ApiError) × AdapterState
  unfolding finalize
  observer_finalize = finalize api hub_finalizer no_hook no_hook

  unfoldable pub observer_ensure_deletion_processed : Operation AdapterState ApiError
  unfolding ensure_deletion_processed
  observer_ensure_deletion_processed = ensure_deletion_processed api hub_finalizer no_hook no_hook

  unfoldable pub observer_ensure_status_initialized : Operation AdapterState ApiError
  unfolding ensure_status_initialized
  observer_ensure_status_initialized = ensure_status_initialized api

  unfoldable pub observer_ensure_finalizer_initialized : Operation AdapterState ApiError
  unfolding ensure_finalizer_initialized
  observer_ensure_finalizer_initialized = ensure_finalizer_initialized api hub_finalizer

  unfoldable pub observer_ensure_status_set_to_done : Operation AdapterState ApiError
  unfolding ensure_status_set_to_done
  observer_ensure_status_set_to_done = ensure_status_set_to_done api

  abbrev pub observer_operations : (has_observers : Bool) → List (Operation AdapterState ApiError)
  observer_operations has_observers =
      observer_ensure_deletion_processed
      ∷ observer_ensure_status_initialized
      ∷ observer_ensure_finalizer_initialized
      ∷ observer_ensure_synchronized has_observers
      ∷ observer_ensure_status_set_to_done
      ∷ []

  unfoldable pub dal_finalize : AdapterState → (ObjectState × Option ApiError) × AdapterState
  unfolding finalize
  dal_finalize = finalize api hub_finalizer no_hook no_hook

  unfoldable pub dal_ensure_deletion_processed : Operation AdapterState ApiError
  unfolding ensure_deletion_processed
  dal_ensure_deletion_processed = ensure_deletion_processed api hub_finalizer no_hook no_hook

  unfoldable pub dal_ensure_status_initialized : Operation AdapterState ApiError
  unfolding ensure_status_initialized
  dal_ensure_status_initialized = ensure_status_initialized api

  unfoldable pub dal_ensure_finalizer_initialized : Operation AdapterState ApiError
  unfolding ensure_finalizer_initialized
  dal_ensure_finalizer_initialized = ensure_finalizer_initialized api hub_finalizer
