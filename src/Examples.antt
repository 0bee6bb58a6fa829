-- ===== src/Examples.antt =====
-- Concrete inputs to which the theorems of the children are applied: a hub with a variable, an alert and a rule, a
-- resource of the API server, and the answers of the outside world.
pub mod Ingresses
pub mod Workloads
pub mod Alerts
pub mod Replays
pub mod Queue
pub mod Webhooks
pub mod Controllers
pub mod Names
pub mod Collectors
pub mod Objects
use mdai_operator.Prelude.{
  all, ◌≡◌, ◌≢◌, ◌↔◌, refl, String, List, [], ◌∷◌, ◌++◌, none, some, Bool, true, false, member,
  is_nil, All, length, present, arith,
}
use mdai_operator.Field.{root}
use mdai_operator.Api.{
  Variable, computed, meta, set_of, meta_hash_set, mdai_valkey, join, When, Action, AutomationRule,
  MdaiHubSpec, PrometheusAlert, payload_count,
}
use mdai_operator.Webhook.{Parsers, Accepts}
use mdai_operator.Webhook.Hub.Variables.{validate_variables}
use mdai_operator.Webhook.Hub.Variables.WellFormed.{is_well_formed}
use mdai_operator.Webhook.Hub.Variables.Accepted.{is_nil-validate_variables}
use mdai_operator.Webhook.Hub.Actions.{validate_action, candidates, rules_errors}
use mdai_operator.Webhook.Hub.Actions.Counting.{validate_action-chosen, chosen}
use mdai_operator.Webhook.Hub.Updates.{validate_meta_var_refs, validate}
use mdai_operator.Webhook.Hub.Updates.Accepted.{validate-Accepts, IsClean}
use mdai_operator.Webhook.Hub.Updates.References.{is_nil-validate_meta_var_refs, keeps_refs}
use mdai_operator.Controller.Operation.{
  Operation, reconcile_handler, requeue, requeue_after, stop_processing, continue_processing,
  finish_keeping, finish_dropping,
}
use mdai_operator.Controller.Operation.Requeue.{requeue-eq_complete, requeue_after_outcomes}
use mdai_operator.Controller.Events.{Payload, Command, Result, transform_then_to_commands}
use mdai_operator.Controller.Events as Events
use mdai_operator.Controller.Events.Commands.{total_count}
use mdai_operator.Controller.Lifecycle.{
  ApiError, other_error, Api, Resource, Condition, unknown_status, done, HookResult, hold, no_hook,
  is_empty, requeue_time, ensure_deletion_processed, finalize, modified, unchanged,
}
use mdai_operator.Controller.Lifecycle.Gate.{gate, is_ready, gate_shut}
use mdai_operator.Controller.Lifecycle.Removal.{deletion_held, cleanup_not_retried}
use mdai_operator.Controller.Replay.{ReplayApi, ReplayState, replay_finalizer, size}
use mdai_operator.Controller.Hub.Values.{ok, Values}
use mdai_operator.Controller.Hub.Env.Panics.{IsReliable}
use mdai_operator.Controller.Hub.Requests.{
  HubRequest, HubApi, HubState, Collector, list_collectors, send, updated_map, unchanged_map,
  collectors,
}
use mdai_operator.Controller.Hub.Restart.{write_maps, sync_computed_config_maps_and_restart}
use mdai_operator.Controller.Hub.Restart.Restarted.{
  restarted, within, sync-restarted, sync-unchanged,
}
use mdai_operator.Controller.Hub.Sync.{Encoders, ensure_variable_synchronized}
use mdai_operator.Controller.Hub.Sync.Total.{accepted-replies}
use mdai_operator.Controller.Hub.Consistency.{OneEach, rules-OneEach}

abbrev pub no_when : When
no_when = record { alert_name = none; status = none; variable_updated = none; update_type = none }

abbrev pub no_action : Action
no_action = record {
  add_to_set = none;
  remove_from_set = none;
  set_variable = none;
  add_to_map = none;
  remove_from_map = none;
  call_webhook = none;
  deploy_replay = none;
  clean_up_replay = none;
}

abbrev pub services : Variable
services = record {
  key = "services";
  type = computed;
  data_type = set_of;
  storage_type = mdai_valkey;
  variable_refs = none;
  serialize_as = some (
      record {
        name = "SERVICES";
        transformers = record { type = join; join = some (record { delimiter = "|" }) } ∷ [];
      }
      ∷ []);
}

abbrev pub filter : Variable
filter = record {
  key = "filter";
  type = meta;
  data_type = meta_hash_set;
  storage_type = mdai_valkey;
  variable_refs = some ("services" ∷ "names" ∷ []);
  serialize_as = none;
}

abbrev pub other_filter : Variable
other_filter = record filter { variable_refs = some ("names" ∷ "services" ∷ []) }

abbrev pub add_service : Action
add_service = record no_action { add_to_set = some (record { set = "services"; value = "api" }) }

abbrev pub noisy : AutomationRule
noisy = record {
  name = "noisy";
  when = record no_when { alert_name = some "noisy"; status = some "firing" };
  then_do = add_service ∷ [];
}

abbrev pub noisy_alert : PrometheusAlert
noisy_alert = record {
  name = "noisy";
  expr = record { int_val = ""; str_val = "up == 0" };
  for_duration = some "5m";
  keep_firing_for = none;
  severity = "warning";
}

abbrev pub hub_spec : MdaiHubSpec
hub_spec = record {
  variables = services ∷ filter ∷ [];
  prometheus_alerts = some (noisy_alert ∷ []);
  config = some (record { evaluation_interval = some "30s" });
  rules = some (noisy ∷ []);
}

-- Everything parses.
abbrev pub parsers : Parsers
parsers = record {
  promql_error = λ s. none;
  request_uri = λ s. none;
  time_parses = λ layout s. true;
}

abbrev pub marshal : Payload → Result String
marshal p = Events.ok "{}"

pub hub-accepted : Accepts (validate parsers hub_spec)
unfolding validate member rules_errors
hub-accepted = refl

abbrev pub hub_resource : Bool → List String → List Condition → Resource
hub_resource deleting finalizers conditions = record {
  name = "hub";
  namespace = "mdai";
  finalizers = finalizers;
  conditions = conditions;
  deleting = deleting;
}

-- The resource that is deleted is on the server with its finalizer.
abbrev pub api : Api HubRequest
api = record {
  on_update = λ sent r. done r;
  on_status_update = λ sent r. done r;
  on_fetch = λ sent name namespace. done (hub_resource true ("f" ∷ []) []);
  contains_finalizer = member;
  add_finalizer = λ f fs. (f ∷ fs, true);
  set_condition = λ c cs. (c ∷ cs, true);
}

abbrev pub deleted : HubState
deleted = record { resource = hub_resource true ("f" ∷ []) []; sent = [] }

abbrev pub reconciling : Condition
reconciling = record { type = "Available"; status = unknown_status; reason = ""; message = "" }

abbrev pub ready : HubState
ready = record { resource = hub_resource false ("f" ∷ []) (reconciling ∷ []); sent = [] }

abbrev pub created : HubState
created = record { resource = hub_resource false [] []; sent = [] }

-- A step of the adapter that fails.
abbrev pub fails : HubState → HookResult × HubState
fails s = (hold (some (other_error "down")), s)

abbrev pub hub : HubApi
hub = record {
  api = api;
  on_delete_rule = λ sent name namespace. none;
  on_delete_config_map = λ sent name namespace. none;
  on_upsert = λ sent name namespace env. unchanged_map;
  on_list = λ sent name. collectors [];
  on_restart = λ sent c. none;
  on_audit = λ sent c. none;
  on_delete_keys = λ sent keep. none;
}

abbrev pub encoders : Encoders
encoders = record {
  schema_json = λ v. ok "{}";
  payload_json = marshal;
  rule_json = λ name trigger commands. some "{}";
}

abbrev pub values : Values
values = record {
  get_set_as_string_slice = λ k. ok ("api" ∷ "web" ∷ []);
  get_string = λ k. ok none;
  get_map_as_string = λ k. ok "{}";
  get_or_create_meta_priority_list = λ k refs. ok none;
  get_or_create_meta_hash_set = λ k ref0 ref1. ok (some "x");
}

pub reliable : IsReliable values
reliable = record {
  set_read = λ k p. cc;
  string_read = λ k p. cc;
  map_read = λ k p. cc;
  list_read = λ k refs p. cc;
  hash_read = λ k ref0 ref1 p. cc;
}

abbrev pub stop : Operation HubState ApiError
stop s = (stop_processing, s)

abbrev pub later : Operation HubState ApiError
later s = (requeue_after requeue_time none, s)

abbrev pub again : Operation HubState ApiError
again s = (requeue, s)

pub ready-is_ready : is_ready api "f" no_hook no_hook ready ≡ true
unfolding member is_empty
ready-is_ready = refl

pub created-is_ready : is_ready api "f" no_hook no_hook created ≡ false
unfolding member is_empty
created-is_ready = refl

-- A hub with a collector, whose ConfigMap is written or found unchanged.
abbrev pub gateway : Collector
gateway = record { name = "gateway"; namespace = "mdai" }

abbrev pub writing : HubApi
writing = record hub {
  on_upsert = λ sent name namespace env. updated_map;
  on_list = λ sent name. collectors (gateway ∷ []);
}

abbrev pub idle : HubApi
idle = record hub { on_list = λ sent name. collectors (gateway ∷ []) }

pub writing-continues :
    (sync_computed_config_maps_and_restart writing [] ready).0 ≡ continue_processing
unfolding sync_computed_config_maps_and_restart member
writing-continues = refl

-- A replay whose queue is not empty.
abbrev pub replay : ReplayApi
replay = record {
  api = record {
    on_update = λ sent r. done r;
    on_status_update = λ sent r. done r;
    on_fetch = λ sent name namespace. done (hub_resource true (replay_finalizer ∷ []) []);
    contains_finalizer = member;
    add_finalizer = λ f fs. (f ∷ fs, true);
    set_condition = λ c cs. (c ∷ cs, true);
  };
  on_metric = λ sent name namespace. size true;
}

abbrev pub deleted_replay : ReplayState
deleted_replay = record { resource = hub_resource true (replay_finalizer ∷ []) []; sent = [] }
