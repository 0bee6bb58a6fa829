-- ===== src/Controller/Events.antt =====
-- internal/controller/event_config_transformer.go. The triggers and the commands are those of the
-- package mdai-data-core, and `json.Marshal` of a command's payload is the parameter `marshal`.
pub mod Commands
use mdai_operator.Prelude.{
  ℕ, suc, String, List, [], ◌∷◌, ◌++◌, Option, none, some, Bool, true, false, not, ◌==◌, length,
  eqb, if◌then◌else◌,
}
use mdai_operator.Api.{
  When, Action, SetAction, ScalarAction, MapAction, CallWebhookAction, DeployReplayAction,
  CleanUpReplayAction,
}

pub data Trigger : Type 0 where
  alert_trigger : (name status : String) → Trigger
  variable_trigger : (name update_type : String) → Trigger

pub data EventError : Type 0 where
  when_required exactly_one_variant no_variant : EventError
  encode : String → EventError
  no_action : ℕ → EventError

pub data Result (A : Type 0) : Type 0 where
  ok : A → Result A
  err : EventError → Result A

infixl 5 ◌>>=◌
abbrev pub ◌>>=◌ : {A B : Type 0} → Result A → (A → Result B) → Result B
ok a >>= f = f a
err e >>= f = err e

abbrev deref : Option String → String
deref none = ""
deref (some s) = s

-- The `switch` on which of the two texts are set.
trigger_of : (alert_name status var_updated update_type : String) → Result Trigger
trigger_of alert_name status var_updated update_type =
    if alert_name == ""
    then (if var_updated == ""
        then err no_variant
        else ok (variable_trigger var_updated update_type))
    else if var_updated == ""
    then ok (alert_trigger alert_name status)
    else err exactly_one_variant

unfoldable pub transform_when_to_trigger : Option When → Result Trigger
unfolding trigger_of
transform_when_to_trigger none = err when_required
transform_when_to_trigger (some when) =
    trigger_of (deref when.alert_name) (deref when.status) (deref when.variable_updated)
      (deref when.update_type)

pub data CommandType : Type 0 where
  var_set_add var_set_remove var_scalar_update var_map_add var_map_remove : CommandType
  webhook_call deploy_replay clean_up_replay : CommandType

pub data Payload : Type 0 where
  set_payload : SetAction → Payload
  scalar_payload : ScalarAction → Payload
  map_payload : MapAction → Payload
  webhook_payload : CallWebhookAction → Payload
  deploy_payload : DeployReplayAction → Payload
  clean_up_payload : CleanUpReplayAction → Payload

-- `inputs` is the payload's JSON text.
pub record Command : Type 0 where
  pub type : CommandType
  pub inputs : String

module _ (marshal : Payload → Result String) where
  -- `appendCmd`
  append_cmd :
      {A : Type 0} → CommandType → (A → Payload) → Option A → List Command → Result (List Command)
  append_cmd type payload none cmds = ok cmds
  append_cmd type payload (some a) cmds = do
    b ← marshal (payload a)
    ok (cmds ++ record { type = type; inputs = b } ∷ [])

  -- The eight calls for one action, on the commands so far.
  append_action : Action → List Command → Result (List Command)
  unfolding append_cmd
  append_action a c0 = do
    c1 ← append_cmd var_set_add set_payload a.add_to_set c0
    c2 ← append_cmd var_set_remove set_payload a.remove_from_set c1
    c3 ← append_cmd var_scalar_update scalar_payload a.set_variable c2
    c4 ← append_cmd var_map_add map_payload a.add_to_map c3
    c5 ← append_cmd var_map_remove map_payload a.remove_from_map c4
    c6 ← append_cmd webhook_call webhook_payload a.call_webhook c5
    c7 ← append_cmd deploy_replay deploy_payload a.deploy_replay c6
    append_cmd clean_up_replay clean_up_payload a.clean_up_replay c7

  -- The check after the eight calls, with the number of commands before them.
  check_progress : ℕ → ℕ → List Command → Result (List Command)
  check_progress i start cmds = if eqb (length cmds) start then err (no_action i) else ok cmds

  -- The loop over the actions, from index `i`.
  append_actions : ℕ → List Action → List Command → Result (List Command)
  unfolding append_action check_progress
  append_actions i [] cmds = ok cmds
  append_actions i (a ∷ actions) cmds = do
    appended ← append_action a cmds
    checked ← check_progress i (length cmds) appended
    append_actions (suc i) actions checked

  unfoldable pub transform_then_to_commands : List Action → Result (List Command)
  unfolding append_actions
  transform_then_to_commands actions = append_actions 0 actions []
