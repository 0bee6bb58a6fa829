-- ===== src/Webhook/Hub/Actions/Accepted.antt =====
-- What the rules of a hub are like that `validateAutomations` accepts.
use mdai_operator.Prelude.{
  ℕ, suc, ◌≡◌, refl, String, List, [], ◌∷◌, Option, none, some, All, append-eq-nil,
}
use mdai_operator.Field.{FieldPath, index}
use mdai_operator.Api.{Action, AutomationRule, MdaiHubSpec, payload_count}
use mdai_operator.Webhook.External.{Parsers}
use mdai_operator.Webhook.Hub.Actions.{
  actions_errors, then_errors, rules_errors, validate_automations, automations,
}
use mdai_operator.Webhook.Hub.Actions.Counting.{payload_count-accepted}

-- The rules, none for the nil slice.
abbrev pub rules_of : Option (List AutomationRule) → List AutomationRule
rules_of none = []
rules_of (some rules) = rules

module _ (parsers : Parsers) where
  actions-accepted :
      (path : FieldPath) (known : List String) (j : ℕ) (actions : List Action)
      → actions_errors parsers path known j actions ≡ []
      → All (λ a. payload_count a ≡ 1) actions
  unfolding actions_errors
  actions-accepted path known j [] h = tt
  actions-accepted path known j (a ∷ actions) h =
      let (here, rest) = append-eq-nil _ _ h in
      (
        payload_count-accepted parsers (index path j) a known here,
        actions-accepted path known (suc j) actions rest,
      )

  -- At least one action, and one payload in each.
  abbrev pub Runs : AutomationRule → Type 0
  Runs rule =
      ((a : Action) × (rest : List Action) × (rule.then_do ≡ a ∷ rest))
      × All (λ a. payload_count a ≡ 1) rule.then_do

  then-accepted :
      (path : FieldPath) (known : List String) (actions : List Action)
      → then_errors parsers path known actions ≡ []
      → ((a : Action) × (rest : List Action) × (actions ≡ a ∷ rest))
        × All (λ a. payload_count a ≡ 1) actions
  unfolding then_errors
  then-accepted path known [] h = cc
  then-accepted path known (a ∷ rest) h =
      ((a, rest, refl), actions-accepted path known 0 (a ∷ rest) h)

  rules-accepted :
      (known alerts : List String) (i : ℕ) (rules : List AutomationRule)
      → rules_errors parsers known alerts i rules ≡ []
      → All Runs rules
  unfolding rules_errors
  rules-accepted known alerts i [] h = tt
  rules-accepted known alerts i (rule ∷ rules) h =
      let (condition, rest) = append-eq-nil _ _ h in
      let (body, others) = append-eq-nil _ _ rest in
      (then-accepted _ known rule.then_do body, rules-accepted known alerts (suc i) rules others)

  pub automations-accepted :
      (spec : MdaiHubSpec)
      → (validate_automations parsers spec).1 ≡ []
      → All Runs (rules_of spec.rules)
  unfolding validate_automations
  automations-accepted spec h = accepted _ _ spec.rules h
    where
      accepted :
          (known alerts : List String) (rules : Option (List AutomationRule))
          → (automations parsers known alerts rules).1 ≡ []
          → All Runs (rules_of rules)
      accepted known alerts none h = tt
      accepted known alerts (some []) h = tt
      accepted known alerts (some (r ∷ rs)) h = rules-accepted known alerts 0 (r ∷ rs) h
