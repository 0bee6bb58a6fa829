-- ===== src/Webhook/Hub/Conditions.antt =====
-- `validateWhen` of internal/webhook/v1/mdaihub_webhook.go
use mdai_operator.Prelude.{
  String, List, [], ◌∷◌, ◌++◌, Option, none, some, Bool, true, false, not, ◌&&◌, member, is_set,
}
use mdai_operator.Field.{FieldPath, child, quoted, FieldError, invalid}
use mdai_operator.Api.{When}

-- `ptr.Deref(p, "")`
abbrev pub deref : Option String → String
deref none = ""
deref (some s) = s

when_error : Bool → FieldError → List FieldError
when_error true e = e ∷ []
when_error false e = []

-- The keys and the names are the sets of those that are not empty.
unfoldable pub validate_when :
    FieldPath → When → (var_keys alert_names : List String) → List FieldError
unfolding when_error is_set member
validate_when path when var_keys alert_names =
    let has_alert_name = is_set (deref when.alert_name) in
    let has_status = is_set (deref when.status) in
    let has_variable_updated = is_set (deref when.variable_updated) in
    let has_update_type = is_set (deref when.update_type) in
    when_error (has_status && not has_alert_name)
      (invalid path (quoted "<alert>") "alertName and status must be set together")
    ++ (when_error (has_update_type && not has_variable_updated) (
          invalid (child path "updateType") (quoted (deref when.update_type))
            "can only be set when variableUpdated is set")
        ++ (when_error (has_variable_updated && not (member (deref when.variable_updated) var_keys))
              (invalid (child path "variableUpdated") (quoted (deref when.variable_updated))
                "not defined in spec.variables")
            ++ when_error (has_alert_name && not (member (deref when.alert_name) alert_names)) (
                invalid (child path "alertName") (quoted (deref when.alert_name))
                  "not defined in spec.prometheusAlerts")))
