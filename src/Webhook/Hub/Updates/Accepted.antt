-- ===== src/Webhook/Hub/Updates/Accepted.antt =====
-- When `Validate` and `ValidateUpdate` accept a hub.
use mdai_operator.Prelude.{
  ◌≡◌, refl, String, List, [], ◌∷◌, Option, none, some, All, append-eq-nil, append-nil-nil, arith,
  Option-cases, inl, inr, ◌↔◌,
}
use mdai_operator.Field.{FieldError}
use mdai_operator.Api.{PrometheusAlert, MdaiHubSpec}
use mdai_operator.Webhook.External.{Parsers}
use mdai_operator.Webhook.Verdicts.{Accepts}
use mdai_operator.Webhook.Hub.Variables.{validate_variables}
use mdai_operator.Webhook.Hub.Actions.{validate_automations, alerts}
use mdai_operator.Webhook.Hub.Updates.{
  after_alerts, validate, verdict_of, first_promql_error, check_alerts,
}

module _ (parsers : Parsers) where
  open parsers use {promql_error}

  -- Every part of the hub's specification is without errors.
  abbrev pub IsClean : MdaiHubSpec → Type 0
  IsClean spec =
      ((validate_variables spec.variables).1 ≡ [])
      × All (λ (a : PrometheusAlert). promql_error a.expr.str_val ≡ none)
          (alerts spec.prometheus_alerts)
      × ((validate_automations parsers spec).1 ≡ [])

  first_error-none :
      (as' : List PrometheusAlert)
      → first_promql_error parsers as' ≡ none
      → All (λ (a : PrometheusAlert). promql_error a.expr.str_val ≡ none) as'
  unfolding first_promql_error
  first_error-none [] h = tt
  first_error-none (a ∷ rest) h = elim (Option-cases (promql_error a.expr.str_val)) [
    | inl k ↦ (k, first_error-none rest (ground arith))
    | inr (e, k) ↦ ground arith
  ]

  none-first_error :
      (as' : List PrometheusAlert)
      → All (λ (a : PrometheusAlert). promql_error a.expr.str_val ≡ none) as'
      → first_promql_error parsers as' ≡ none
  unfolding first_promql_error
  none-first_error [] h = refl
  none-first_error (a ∷ rest) h = ground (arith, none-first_error rest h.1)

  check_alerts-none :
      (o : Option (List PrometheusAlert))
      → (check_alerts parsers o).1 ≡ none
      → All (λ (a : PrometheusAlert). promql_error a.expr.str_val ≡ none) (alerts o)
  unfolding check_alerts
  check_alerts-none none h = tt
  check_alerts-none (some []) h = tt
  check_alerts-none (some (a ∷ rest)) h = first_error-none (a ∷ rest) h

  none-check_alerts :
      (o : Option (List PrometheusAlert))
      → All (λ (a : PrometheusAlert). promql_error a.expr.str_val ≡ none) (alerts o)
      → (check_alerts parsers o).1 ≡ none
  unfolding check_alerts
  none-check_alerts none h = refl
  none-check_alerts (some []) h = refl
  none-check_alerts (some (a ∷ rest)) h = none-first_error (a ∷ rest) h

  verdict_of-none :
      (warnings : List String) (es : List FieldError)
      → (verdict_of parsers warnings es).error ≡ none
      → es ≡ []
  unfolding verdict_of
  verdict_of-none warnings [] h = refl
  verdict_of-none warnings (e ∷ es) h = cc

  after_alerts-none :
      (o : Option String) (ws rs : List String) (es : List FieldError)
      → (after_alerts parsers o ws rs es).error ≡ none
      → (o ≡ none) × (es ≡ [])
  unfolding after_alerts
  after_alerts-none none ws rs es h = (refl, verdict_of-none _ es h)
  after_alerts-none (some e) ws rs es h = cc

  none-after_alerts :
      (o : Option String) (ws rs : List String) (es : List FieldError)
      → o ≡ none
      → es ≡ []
      → (after_alerts parsers o ws rs es).error ≡ none
  unfolding after_alerts verdict_of
  none-after_alerts none ws rs [] h k = refl
  none-after_alerts none ws rs (e ∷ es) h k = cc
  none-after_alerts (some e) ws rs es h k = cc

  -- `Validate` accepts a hub exactly if its variables and its automations are without errors and each
  -- alert's expression parses.
  pub validate-Accepts : (spec : MdaiHubSpec) → Accepts (validate parsers spec) ↔ IsClean spec
  unfolding validate
  validate-Accepts spec = (
    (λ h.
        let (parsed, clean) = after_alerts-none _ _ _ _ h in
        let (variables, rules) = append-eq-nil _ _ clean in
        (variables, check_alerts-none spec.prometheus_alerts parsed, rules)),
    λ c.
        none-after_alerts _ _ _ _ (none-check_alerts spec.prometheus_alerts c.1)
          (append-nil-nil _ _ c.0 c.2),
  )
