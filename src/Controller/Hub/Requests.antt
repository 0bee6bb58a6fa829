-- ===== src/Controller/Hub/Requests.antt =====
-- The requests that internal/controller/hub_adapter.go sends besides those of its life cycle, with
-- the API server's and Valkey's answers as functions of all that was sent before; deletePrometheusRule
-- and deleteEnvConfigMap, and what `finalize` does of its own.
use mdai_operator.Prelude.{String, List, [], ◌∷◌, Option, none, some}
use Prim.Native.String
use mdai_operator.Controller.Lifecycle.{
  ApiError, not_found, Api, Request, work, State, HookResult, proceed, hold, ObjectState, finalize,
  ensure_deletion_processed,
}
use mdai_operator.Controller.Operation.{Operation}
use mdai_operator.Controller.Hub.Env.{Env}

-- An OpenTelemetryCollector, as far as it is read.
pub record Collector : Type 0 where
  pub name : String
  pub namespace : String

pub data HubRequest : Type 0 where
  delete_rule : (name namespace : String) → HubRequest
  delete_config_map : (name namespace : String) → HubRequest
  upsert_config_map : (name namespace : String) → Env → HubRequest
  list_collectors : (hub : String) → HubRequest
  restart : Collector → HubRequest
  audit : Collector → HubRequest
  delete_keys : List String → HubRequest

-- `controllerutil.CreateOrUpdate`: OperationResultNone is `unchanged_map`.
pub data Upserted : Type 0 where
  created_map updated_map unchanged_map : Upserted
  upsert_failed : ApiError → Upserted

pub data Listed : Type 0 where
  collectors : List Collector → Listed
  list_failed : ApiError → Listed

abbrev pub Sent : Type 0
Sent = List (Request HubRequest)

abbrev pub HubState : Type 0
HubState = State HubRequest

pub record HubApi : Type 0 where
  pub api : Api HubRequest
  pub on_delete_rule : Sent → (name namespace : String) → Option ApiError
  pub on_delete_config_map : Sent → (name namespace : String) → Option ApiError
  pub on_upsert : Sent → (name namespace : String) → Env → Upserted
  pub on_list : Sent → (hub : String) → Listed
  pub on_restart : Sent → Collector → Option ApiError
  pub on_audit : Sent → Collector → Option ApiError
  pub on_delete_keys : Sent → List String → Option ApiError

abbrev pub hub_finalizer : String
hub_finalizer = "mydecisive.ai/finalizer"

abbrev pub send : HubRequest → HubState → HubState
send q s = record s { sent = work q ∷ s.sent }

-- A deletion that finds nothing succeeds.
ignore_not_found : Option ApiError → Option ApiError
ignore_not_found none = none
ignore_not_found (some not_found) = none
ignore_not_found (some e) = some e

unfoldable pub rule_name : String → String
rule_name hub = String.◌++◌ "mdai-" (String.◌++◌ hub "-alert-rules")

hook_of : Option ApiError → HookResult
hook_of none = proceed
hook_of (some e) = hold (some e)

module _ (hub : HubApi) where
  open hub use {on_delete_rule, on_delete_config_map, on_delete_keys}

  unfoldable pub delete_prometheus_rule : HubState → Option ApiError × HubState
  unfolding ignore_not_found rule_name
  delete_prometheus_rule s =
      let r = s.resource in
      (
        ignore_not_found (on_delete_rule s.sent (rule_name r.name) r.namespace),
        send (delete_rule (rule_name r.name) r.namespace) s,
      )

  -- The ConfigMap's name is the hub's with the postfix.
  unfoldable pub delete_env_config_map : String → String → HubState → Option ApiError × HubState
  unfolding ignore_not_found
  delete_env_config_map postfix namespace s =
      let name = String.◌++◌ s.resource.name postfix in
      (
        ignore_not_found (on_delete_config_map s.sent name namespace),
        send (delete_config_map name namespace) s,
      )

  -- DeleteKeysWithPrefixUsingScan
  unfoldable pub delete_valkey_keys : List String → HubState → Option ApiError × HubState
  delete_valkey_keys keep s = (on_delete_keys s.sent keep, send (delete_keys keep) s)

  -- What the hub's `finalize` does before the shared part, and after the finalizer was removed.
  unfoldable pub delete_rule_hook : HubState → HookResult × HubState
  unfolding hook_of delete_prometheus_rule
  delete_rule_hook s = let (e, s') = delete_prometheus_rule s in (hook_of e, s')

  unfoldable pub delete_keys_hook : HubState → HookResult × HubState
  unfolding hook_of delete_valkey_keys
  delete_keys_hook s = let (e, s') = delete_valkey_keys [] s in (hook_of e, s')

  unfoldable pub hub_finalize : HubState → (ObjectState × Option ApiError) × HubState
  unfolding finalize delete_rule_hook delete_keys_hook
  hub_finalize = finalize hub.api hub_finalizer delete_rule_hook delete_keys_hook

  unfoldable pub hub_ensure_deletion_processed : Operation HubState ApiError
  unfolding ensure_deletion_processed delete_rule_hook delete_keys_hook
  hub_ensure_deletion_processed =
      ensure_deletion_processed hub.api hub_finalizer delete_rule_hook delete_keys_hook
