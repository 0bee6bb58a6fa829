-- ===== src/Webhook/Hub/Updates.antt =====
-- `validateMetaVarRefs`, `Validate`, `ValidateCreate`, `ValidateUpdate` and `ValidateDelete` of
-- internal/webhook/v1/mdaihub_webhook.go
pub mod Accepted
pub mod References
use mdai_operator.Prelude.{
  ℕ, suc, String, List, [], ◌∷◌, ◌++◌, Option, none, some, Bool, true, false, ◌&&◌, ◌==◌, Dict,
  lookup, insert, if◌then◌else◌,
}
use mdai_operator.Field.{FieldPath, root, child, index, FieldError, forbidden}
use mdai_operator.Api.{Variable, PrometheusAlert, MdaiHubSpec}
use mdai_operator.Webhook.External.{Parsers}
use mdai_operator.Webhook.Verdicts.{Verdict}
use mdai_operator.Webhook.Hub.Variables.{is_meta, validate_variables}
use mdai_operator.Webhook.Hub.Actions.{validate_automations}

unfoldable pub same_texts : List String → List String → Bool
same_texts [] [] = true
same_texts (s ∷ ss) (t ∷ ts) = s == t && same_texts ss ts
same_texts _ _ = false

-- reflect.DeepEqual on slices: a nil slice differs from an empty one.
unfoldable pub same_refs : Option (List String) → Option (List String) → Bool
unfolding same_texts
same_refs none none = true
same_refs (some ss) (some ts) = same_texts ss ts
same_refs _ _ = false

-- The map of the old meta variables; a later key overwrites an earlier one.
unfoldable pub meta_refs : Dict (Option (List String)) → List Variable → Dict (Option (List String))
unfolding is_meta insert
meta_refs refs [] = refs
meta_refs refs (v ∷ vs) =
    meta_refs (if is_meta v.type then insert v.key v.variable_refs refs else refs) vs

refs_error : ℕ → Option (List String) → Option (Option (List String)) → List FieldError
unfolding same_refs
refs_error i new_refs none = []
refs_error i new_refs (some old_refs) =
    if same_refs old_refs new_refs
    then []
    else forbidden (child (index (child (root "spec") "variables") i) "variableRefs")
        "meta variable references must not change; delete and recreate the variable to update references"
      ∷ []

-- The loop over the new variables, from index `i`.
refs_changes : Dict (Option (List String)) → ℕ → List Variable → List FieldError
unfolding refs_error lookup is_meta
refs_changes old i [] = []
refs_changes old i (v ∷ vs) =
    (if is_meta v.type then refs_error i v.variable_refs (lookup v.key old) else [])
    ++ refs_changes old (suc i) vs

unfoldable pub validate_meta_var_refs : List Variable → List Variable → List FieldError
unfolding meta_refs refs_changes
validate_meta_var_refs [] new = []
validate_meta_var_refs (o ∷ os) [] = []
validate_meta_var_refs (o ∷ os) (n ∷ ns) = refs_changes (meta_refs [] (o ∷ os)) 0 (n ∷ ns)

pub data HubError : Type 0 where
  promql : String → HubError
  invalid_hub : List FieldError → HubError

module _ (parsers : Parsers) where
  open parsers use {promql_error}

  -- The error of the first alert whose expression does not parse.
  unfoldable pub first_promql_error : List PrometheusAlert → Option String
  first_promql_error [] = none
  first_promql_error (a ∷ rest) = elim (promql_error a.expr.str_val) [
    | some e ↦ some e
    | none ↦ first_promql_error rest
  ]

  -- The warning without alerts, and the first PromQL error.
  unfoldable pub check_alerts : Option (List PrometheusAlert) → List String × Option String
  unfolding first_promql_error
  check_alerts none = ("no `PrometheusAlerts` provided; MdaiHub will not setup alerts" ∷ [], none)
  check_alerts (some []) =
      ("no `PrometheusAlerts` provided; MdaiHub will not setup alerts" ∷ [], none)
  check_alerts (some (a ∷ rest)) = ([], first_promql_error (a ∷ rest))

  verdict_of : List String → List FieldError → Verdict HubError
  verdict_of warnings [] = record { warnings = warnings; error = none }
  verdict_of warnings (e ∷ es) = record { warnings = warnings; error = some (invalid_hub (e ∷ es)) }

  -- A PromQL error is returned at once; otherwise the warnings of the rules are added.
  after_alerts :
      Option String → (warnings rule_warnings : List String) → List FieldError → Verdict HubError
  unfolding verdict_of
  after_alerts (some e) warnings rule_warnings errors = record {
    warnings = warnings;
    error = some (promql e);
  }
  after_alerts none warnings rule_warnings errors = verdict_of (warnings ++ rule_warnings) errors

  unfoldable pub validate : MdaiHubSpec → Verdict HubError
  unfolding check_alerts after_alerts validate_variables validate_automations
  validate spec =
      let (var_warnings, var_errors) = validate_variables spec.variables in
      let (alert_warnings, promql_failure) = check_alerts spec.prometheus_alerts in
      let (rule_warnings, rule_errors) = validate_automations parsers spec in
      after_alerts promql_failure (var_warnings ++ alert_warnings) rule_warnings
        (var_errors ++ rule_errors)

  unfoldable pub validate_create : MdaiHubSpec → Verdict HubError
  unfolding validate
  validate_create = validate

  refuse_or_validate : List FieldError → MdaiHubSpec → Verdict HubError
  unfolding validate
  refuse_or_validate [] spec = validate spec
  refuse_or_validate (e ∷ es) spec = record { warnings = []; error = some (invalid_hub (e ∷ es)) }

  unfoldable pub validate_update : MdaiHubSpec → MdaiHubSpec → Verdict HubError
  unfolding refuse_or_validate validate_meta_var_refs
  validate_update old new =
      refuse_or_validate (validate_meta_var_refs old.variables new.variables) new

  unfoldable pub validate_delete : MdaiHubSpec → Verdict HubError
  validate_delete spec = record { warnings = []; error = none }
