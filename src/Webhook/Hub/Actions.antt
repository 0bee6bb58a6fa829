-- ===== src/Webhook/Hub/Actions.antt =====
-- `validateAction` of internal/webhook/v1/mdaihub_webhook.go, with the validators of the single
-- actions, and `validateAutomations`.
pub mod Counting
pub mod Accepted
use mathlib.Core.Option
use mdai_operator.Prelude.{
  ℕ, suc, String, List, [], ◌∷◌, ◌++◌, Option, none, some, Bool, true, false, not, ◌&&◌, ◌==◌,
  member, codes, is_set, if◌then◌else◌,
}
use mdai_operator.Field.{
  FieldPath, root, child, index, text, has_suffix, quoted, structured, FieldError, required,
  invalid,
}
use mdai_operator.Api.{
  Action, SetAction, ScalarAction, MapAction, CallWebhookAction, DeployReplayAction,
  CleanUpReplayAction, AutomationRule, Variable, PrometheusAlert, MdaiHubSpec,
}
use mdai_operator.Webhook.External.{Parsers}
use mdai_operator.Webhook.Verdicts.{Verdict}
use mdai_operator.Webhook.Replay.{ReplayError, validate_replay_spec, hub_automation}
use mdai_operator.Webhook.Hub.Conditions.{deref, validate_when}
use mdai_operator.Webhook.Hub.WebhookCall.{validate_webhook_call}

unfoldable pub validate_variable_action :
    FieldPath → String → List String → String → List FieldError
unfolding member
validate_variable_action path variable_key known child_path =
    if member variable_key known
    then []
    else invalid (child path child_path) (quoted variable_key) "not defined in spec.variables" ∷ []

value_errors : FieldPath → Option String → List FieldError
unfolding is_set
value_errors p none = required (child p "value") "required for addToMap" ∷ []
value_errors p (some v) =
    if is_set v then [] else required (child p "value") "required for addToMap" ∷ []

-- The value is required if the path's text ends in ".addToMap".
unfoldable pub validate_map_action : FieldPath → MapAction → List String → List FieldError
unfolding value_errors member text has_suffix
validate_map_action p a known =
    (if member a.map known
      then []
      else invalid (child p "map") (quoted a.map) "not defined in spec.variables" ∷ [])
    ++ (if has_suffix (text p) (codes ".addToMap") then value_errors p a.value else [])

replay_error : FieldPath → Option ReplayError → List FieldError
replay_error p none = []
replay_error p (some e) = invalid (child p "replaySpec") structured "invalid replay spec" ∷ []

unfoldable pub validate_clean_up_replay_action :
    FieldPath → CleanUpReplayAction → List String → List FieldError
validate_clean_up_replay_action p a known = []

-- The search for the one action that is present: an entry is the errors of a present action.
unfoldable pub select :
    FieldPath → Option (List FieldError) → List (Option (List FieldError)) → List FieldError
select path none [] = invalid path (quoted "<action>") "at least one action must be specified" ∷ []
select path (some errors) [] = errors
select path found (none ∷ rest) = select path found rest
select path none (some errors ∷ rest) = select path (some errors) rest
select path (some _) (some _ ∷ rest) =
    invalid path (quoted "<action>") "only one action may be specified" ∷ []

module _ (parsers : Parsers) where
  unfoldable pub validate_deploy_replay_action :
      FieldPath → DeployReplayAction → List String → List FieldError
  unfolding replay_error validate_replay_spec member
  validate_deploy_replay_action p a known =
      (if member a.replay_spec.status_variable_ref known
        then []
        else invalid (child p "replaySpec.statusVariableRef")
            (quoted a.replay_spec.status_variable_ref) "does not reference a known variable"
          ∷ [])
      ++ replay_error p (validate_replay_spec parsers a.replay_spec hub_automation).error

  -- The table of `validateAction`.
  unfoldable pub candidates : FieldPath → Action → List String → List (Option (List FieldError))
  unfolding validate_variable_action validate_map_action validate_webhook_call
      validate_deploy_replay_action validate_clean_up_replay_action
  candidates at action known =
      Option.map (λ a. validate_variable_action (child at "addToSet") a.set known "set")
        action.add_to_set
      ∷ Option.map (λ a. validate_variable_action (child at "removeFromSet") a.set known "set")
          action.remove_from_set
      ∷ Option.map (λ a. validate_variable_action (child at "setVariable") a.scalar known "scalar")
          action.set_variable
      ∷ Option.map (λ a. validate_map_action (child at "addToMap") a known) action.add_to_map
      ∷ Option.map (λ a. validate_map_action (child at "removeFromMap") a known)
          action.remove_from_map
      ∷ Option.map (λ a. validate_webhook_call parsers (child at "callWebhook") a)
          action.call_webhook
      ∷ Option.map (λ a. validate_deploy_replay_action (child at "deployReplay") a known)
          action.deploy_replay
      ∷ Option.map (λ a. validate_clean_up_replay_action (child at "cleanUpReplay") a known)
          action.clean_up_replay
      ∷ []

  unfoldable pub validate_action : FieldPath → Action → List String → List FieldError
  unfolding candidates select
  validate_action at action known = select at none (candidates at action known)

  -- The loop over the actions of a rule, from index `j`.
  unfoldable pub actions_errors : FieldPath → List String → ℕ → List Action → List FieldError
  unfolding validate_action
  actions_errors then_path known j [] = []
  actions_errors then_path known j (a ∷ actions) =
      validate_action (index then_path j) a known ++ actions_errors then_path known (suc j) actions

  unfoldable pub then_errors : FieldPath → List String → List Action → List FieldError
  unfolding actions_errors
  then_errors then_path known [] = required then_path "at least 1 action is required" ∷ []
  then_errors then_path known (a ∷ actions) = actions_errors then_path known 0 (a ∷ actions)

  -- The loop over the rules, from index `i`.
  unfoldable pub rules_errors :
      (known alerts : List String) → ℕ → List AutomationRule → List FieldError
  unfolding validate_when then_errors
  rules_errors known alerts i [] = []
  rules_errors known alerts i (rule ∷ rules) =
      let path = index (child (root "spec") "rules") i in
      validate_when (child path "when") rule.when known alerts
      ++ (then_errors (child path "then") known rule.then_do
          ++ rules_errors known alerts (suc i) rules)

-- The names of a set that are not empty.
unfoldable pub nonempty : List String → List String
nonempty [] = []
nonempty (s ∷ ss) = if s == "" then nonempty ss else s ∷ nonempty ss

variable_keys : List Variable → List String
variable_keys [] = []
variable_keys (v ∷ vs) = v.key ∷ variable_keys vs

alert_names : List PrometheusAlert → List String
alert_names [] = []
alert_names (a ∷ as') = a.name ∷ alert_names as'

unfoldable pub known_keys : MdaiHubSpec → List String
unfolding nonempty variable_keys
known_keys spec = nonempty (variable_keys spec.variables)

abbrev pub alerts : Option (List PrometheusAlert) → List PrometheusAlert
alerts none = []
alerts (some as') = as'

unfoldable pub known_alerts : MdaiHubSpec → List String
unfolding nonempty alert_names
known_alerts spec = nonempty (alert_names (alerts spec.prometheus_alerts))

abbrev pub automations :
    Parsers
    → (known alerts : List String) → Option (List AutomationRule)
    → List String × List FieldError
automations parsers known alerts none =
    ("no `Rules` provided; MdaiHub will perform no actions" ∷ [], [])
automations parsers known alerts (some []) =
    ("no `Rules` provided; MdaiHub will perform no actions" ∷ [], [])
automations parsers known alerts (some (r ∷ rs)) =
    ([], rules_errors parsers known alerts 0 (r ∷ rs))

-- The warnings and the errors.
unfoldable pub validate_automations : Parsers → MdaiHubSpec → List String × List FieldError
unfolding known_keys known_alerts
validate_automations parsers spec =
    automations parsers (known_keys spec) (known_alerts spec) spec.rules
