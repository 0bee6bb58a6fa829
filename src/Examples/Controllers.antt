-- ===== src/Examples/Controllers.antt =====
-- The theorems on the controllers of internal/controller at concrete states.
use mdai_operator.Prelude.{◌≡◌, ◌≢◌, refl, [], ◌∷◌, ◌++◌, none, some, member, All}
use mdai_operator.Controller.Operation.{reconcile_handler, continue_processing}
use mdai_operator.Controller.Operation.Requeue.{requeue-eq_complete}
use mdai_operator.Controller.Lifecycle.{work, other_error, no_hook, finalize, modified, unchanged}
use mdai_operator.Controller.Lifecycle.Gate.{gate, gate_shut}
use mdai_operator.Controller.Lifecycle.Removal.{cleanup_not_retried}
use mdai_operator.Controller.Hub.Requests.{HubState, list_collectors}
use mdai_operator.Controller.Hub.Restart.{sync_computed_config_maps_and_restart}
use mdai_operator.Controller.Hub.Restart.Restarted.{
  restarted, rewritten, within, sync-restarted, sync-unchanged,
}
use mdai_operator.Controller.Hub.Sync.{ensure_variable_synchronized}
use mdai_operator.Controller.Hub.Sync.Total.{accepted-replies}
use mdai_operator.Controller.Hub.Consistency.{OneEach, rules-OneEach}
use mdai_operator.Examples.{
  services, filter, noisy, hub_spec, parsers, marshal, hub-accepted, api, deleted, ready, created,
  fails, hub, encoders, values, reliable, stop, again, created-is_ready, gateway, writing, idle,
  writing-continues,
}

accepted-replies_example :
    ensure_variable_synchronized hub encoders values (services ∷ filter ∷ []) ready ≢ none
accepted-replies_example =
    accepted-replies hub encoders values (λ v p. cc) reliable parsers hub_spec ready hub-accepted
      refl

rules-OneEach_example : All (OneEach marshal (λ p. ("{}", refl))) (noisy ∷ [])
rules-OneEach_example = rules-OneEach marshal (λ p. ("{}", refl)) parsers hub_spec hub-accepted

gate_shut_example :
    reconcile_handler (gate api "f" no_hook no_hook ++ stop ∷ []) created
    ≡ reconcile_handler (gate api "f" no_hook no_hook ++ []) created
gate_shut_example = gate_shut api "f" no_hook no_hook (stop ∷ []) [] created created-is_ready

cleanup_not_retried_example :
    (t : HubState) × (finalize api "f" no_hook fails deleted
      ≡ ((unchanged, some (other_error "down")), t))
    × (finalize api "f" no_hook fails t ≡ ((modified, none), t))
unfolding member
cleanup_not_retried_example =
    cleanup_not_retried api "f" no_hook fails deleted deleted.resource (some (other_error "down"))
      (λ sent r. refl, λ sent r. refl) (λ fs. refl) refl refl refl refl refl refl

requeue-eq_complete_example :
    reconcile_handler (again ∷ stop ∷ []) ready ≡ reconcile_handler [] ready
requeue-eq_complete_example = requeue-eq_complete again (stop ∷ []) ready ready refl

sync-restarted_example :
    restarted (sync_computed_config_maps_and_restart writing [] ready).1.sent
    ≡ restarted []
      ++ within
          (rewritten writing "hub" [] (gateway ∷ []) (work (list_collectors "hub") ∷ []))
          (gateway ∷ [])
sync-restarted_example = sync-restarted writing [] ready (gateway ∷ []) refl writing-continues

sync-unchanged_example :
    ((sync_computed_config_maps_and_restart idle [] ready).0 ≡ continue_processing)
    × (restarted (sync_computed_config_maps_and_restart idle [] ready).1.sent ≡ restarted [])
sync-unchanged_example =
    sync-unchanged idle [] ready (gateway ∷ []) refl (λ sent name namespace env. refl)
