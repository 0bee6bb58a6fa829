-- ===== src/Examples/Webhooks.antt =====
-- The theorems on the webhooks of internal/webhook/v1 at concrete hubs.
use mdai_operator.Prelude.{all, ◌≡◌, ◌↔◌, [], ◌∷◌, is_nil, length, present}
use mdai_operator.Field.{root}
use mdai_operator.Api.{payload_count}
use mdai_operator.Webhook.{Accepts}
use mdai_operator.Webhook.Hub.Variables.{validate_variables}
use mdai_operator.Webhook.Hub.Variables.WellFormed.{is_well_formed}
use mdai_operator.Webhook.Hub.Variables.Accepted.{is_nil-validate_variables}
use mdai_operator.Webhook.Hub.Actions.{validate_action, candidates}
use mdai_operator.Webhook.Hub.Actions.Counting.{validate_action-chosen, chosen}
use mdai_operator.Webhook.Hub.Updates.{validate_meta_var_refs, validate}
use mdai_operator.Webhook.Hub.Updates.Accepted.{validate-Accepts, IsClean}
use mdai_operator.Webhook.Hub.Updates.References.{is_nil-validate_meta_var_refs, keeps_refs}
use mdai_operator.Examples.{services, filter, other_filter, add_service, hub_spec, parsers}

is_nil-validate_variables_example :
    is_nil (validate_variables (services ∷ services ∷ [])).1
    ≡ is_well_formed (services ∷ services ∷ [])
is_nil-validate_variables_example = is_nil-validate_variables (services ∷ services ∷ [])

validate_action-chosen_example :
    (validate_action parsers (root "spec") add_service ("services" ∷ [])
      ≡ chosen
          (root "spec")
          (present (candidates parsers (root "spec") add_service ("services" ∷ []))))
    × (length (present (candidates parsers (root "spec") add_service ("services" ∷ [])))
        ≡ payload_count add_service)
validate_action-chosen_example =
    validate_action-chosen parsers (root "spec") add_service ("services" ∷ [])

validate-Accepts_example : Accepts (validate parsers hub_spec) ↔ IsClean parsers hub_spec
validate-Accepts_example = validate-Accepts parsers hub_spec

-- The references of a meta variable are changed.
is_nil-validate_meta_var_refs_example :
    is_nil (validate_meta_var_refs (filter ∷ []) (other_filter ∷ []))
    ≡ all (keeps_refs (filter ∷ [])) (other_filter ∷ [])
is_nil-validate_meta_var_refs_example =
    is_nil-validate_meta_var_refs (filter ∷ []) (other_filter ∷ [])
