-- ===== src/Controller/Hub/Sync.antt =====
-- ensureVariableSynchronized and ensureAutomationsSynchronized of
-- internal/controller/hub_adapter.go, and the operations of the hub's ReconcileHandler in
-- internal/controller/mdaihub_controller.go. An index or a pointer that makes the process panic is
-- the reply `none`. `schema_json` and `rule_json` are json.Marshal of a variable's schema entry and
-- of a rule.
pub mod Total
use mdai_operator.Prelude.{
  String, List, [], ◌∷◌, Option, none, some, Bool, true, false, Dict, insert, if◌then◌else◌,
}
use mdai_operator.Api.{Variable, AutomationRule, MdaiHubSpec}
use mdai_operator.Controller.Operation.{
  Reply, Operation, continue_processing, continue_with_error, requeue_with_error,
  requeue_on_error_or_continue,
}
use mdai_operator.Controller.Lifecycle.{ApiError, other_error}
use mdai_operator.Controller.Events.{
  Trigger, Command, Payload, Result, transform_when_to_trigger, transform_then_to_commands,
}
use mdai_operator.Controller.Events as Events
use mdai_operator.Controller.Hub.Values.{Attempt, ok, err, panic, Values}
use mdai_operator.Controller.Hub.Env.{Env, Synced, sync_valkey_variables}
use mdai_operator.Controller.Hub.Requests.{
  Upserted, created_map, updated_map, unchanged_map, upsert_failed, HubState, HubApi,
  delete_env_config_map, delete_valkey_keys,
}
use mdai_operator.Controller.Hub.Restart.{
  create_or_update_env_config_map, sync_computed_config_maps_and_restart,
}

abbrev pub manual_postfix : String
manual_postfix = "-manual-variables"

abbrev pub schema_postfix : String
schema_postfix = "-variables-schema"

abbrev pub automation_postfix : String
automation_postfix = "-automation"

-- The JSON encoders.
pub record Encoders : Type 0 where
  pub schema_json : Variable → Attempt String
  pub payload_json : Payload → Result String
  pub rule_json : String → Trigger → List Command → Option String

upsert_error : Upserted → Option ApiError
upsert_error created_map = none
upsert_error updated_map = none
upsert_error unchanged_map = none
upsert_error (upsert_failed e) = some e

module _ (hub : HubApi) (encoders : Encoders) (values : Values) where
  open encoders use {schema_json, payload_json, rule_json}

  -- buildVariableSchemaEnvMap
  schema_env : List Variable → Env → Attempt Env
  schema_env [] env = ok env
  schema_env (v ∷ vs) env = elim (schema_json v) [
    | ok json ↦ schema_env vs (insert v.key json env)
    | err e ↦ err e
    | panic ↦ panic
  ]

  -- Each step of the chain returns the error with the reply that the code gives it.
  write_or_reply : Env → (postfix namespace : String) → HubState → Option ApiError × HubState
  unfolding create_or_update_env_config_map upsert_error
  write_or_reply env postfix namespace s =
      let (r, s') = create_or_update_env_config_map hub env postfix namespace s in
      (upsert_error r, s')

  -- Without variables: the schema's ConfigMap is deleted, then that of the manual variables.
  delete_manual : Option ApiError × HubState → Reply ApiError × HubState
  unfolding delete_env_config_map
  delete_manual (some e, s) = (continue_with_error (some e), s)
  delete_manual (none, s) =
      let (e, s') = delete_env_config_map hub manual_postfix s.resource.namespace s in
      elim e [
        | some failure ↦ (continue_with_error (some failure), s')
        | none ↦ (continue_processing, s')
      ]

  remove_maps : Operation HubState ApiError
  unfolding delete_manual
  remove_maps s = delete_manual (delete_env_config_map hub schema_postfix s.resource.namespace s)

  -- The ConfigMap of the manual variables is deleted if there are none.
  write_manual : Env → HubState → Option ApiError × HubState
  unfolding write_or_reply
  write_manual [] s = delete_env_config_map hub manual_postfix s.resource.namespace s
  write_manual (e ∷ env) s = write_or_reply (e ∷ env) manual_postfix s.resource.namespace s

  finish_sync : Env → Option ApiError × HubState → Reply ApiError × HubState
  unfolding sync_computed_config_maps_and_restart
  finish_sync env (some e, s) = (continue_with_error (some e), s)
  finish_sync env (none, s) = sync_computed_config_maps_and_restart hub env s

  after_keys : Synced → Option ApiError × HubState → Reply ApiError × HubState
  unfolding finish_sync write_manual
  after_keys synced (some e, s) = (requeue_on_error_or_continue (some e), s)
  after_keys synced (none, s) = finish_sync synced.env (write_manual synced.manual_env s)

  after_values : Attempt Synced → HubState → Option (Reply ApiError × HubState)
  unfolding after_keys delete_valkey_keys
  after_values panic s = none
  after_values (err e) s = some (requeue_with_error (some e), s)
  after_values (ok synced) s =
      some (after_keys synced (delete_valkey_keys hub synced.keys_to_keep s))

  after_schema : List Variable → Option ApiError × HubState → Option (Reply ApiError × HubState)
  unfolding after_values sync_valkey_variables
  after_schema vs (some e, s) = some (continue_with_error (some e), s)
  after_schema vs (none, s) =
      after_values
        (sync_valkey_variables values vs (record { env = []; manual_env = []; keys_to_keep = [] }))
        s

  write_schema : List Variable → Attempt Env → HubState → Option (Reply ApiError × HubState)
  unfolding after_schema write_or_reply
  write_schema vs panic s = none
  write_schema vs (err e) s = some (continue_with_error (some e), s)
  write_schema vs (ok env) s =
      after_schema vs (write_or_reply env schema_postfix s.resource.namespace s)

  unfoldable pub ensure_variable_synchronized :
      List Variable → HubState → Option (Reply ApiError × HubState)
  unfolding schema_env write_schema remove_maps
  ensure_variable_synchronized [] s = some (remove_maps s)
  ensure_variable_synchronized (v ∷ vs) s = write_schema (v ∷ vs) (schema_env (v ∷ vs) []) s

  -- One entry of the ConfigMap of automations.
  rule_entry : AutomationRule → Result String
  unfolding transform_when_to_trigger transform_then_to_commands
  rule_entry rule = elim (transform_when_to_trigger (some rule.when)) [
    | Events.err e ↦ Events.err e
    | Events.ok trigger ↦ elim (transform_then_to_commands payload_json rule.then_do) [
      | Events.err e ↦ Events.err e
      | Events.ok commands ↦ elim (rule_json rule.name trigger commands) [
        | none ↦ Events.err (Events.encode "failed to marshal automationRule workflow")
        | some json ↦ Events.ok json
      ]
    ]
  ]

  automation_env : List AutomationRule → Env → Result Env
  unfolding rule_entry insert
  automation_env [] env = Events.ok env
  automation_env (rule ∷ rules) env = elim (rule_entry rule) [
    | Events.err e ↦ Events.err e
    | Events.ok json ↦ automation_env rules (insert rule.name json env)
  ]

  reply_error : Option ApiError × HubState → Reply ApiError × HubState
  reply_error (none, s) = (continue_processing, s)
  reply_error (some e, s) = (requeue_on_error_or_continue (some e), s)

  write_automations : Result Env → Operation HubState ApiError
  unfolding reply_error write_or_reply
  write_automations (Events.err e) s =
      (continue_with_error (some (other_error "failed to transform the automations")), s)
  write_automations (Events.ok env) s =
      reply_error (write_or_reply env automation_postfix s.resource.namespace s)

  unfoldable pub ensure_automations_synchronized :
      Option (List AutomationRule) → Operation HubState ApiError
  unfolding automation_env write_automations reply_error delete_env_config_map
  ensure_automations_synchronized none s =
      reply_error (delete_env_config_map hub automation_postfix s.resource.namespace s)
  ensure_automations_synchronized (some rules) s = write_automations (automation_env rules []) s
