-- ===== src/Controller/Hub/Consistency.antt =====
-- What the adapter of internal/controller/hub_adapter.go may rely on once the webhook of
-- internal/webhook/v1/mdaihub_webhook.go has accepted a hub.
use mdai_operator.Prelude.{◌≤◌, ◌≡◌, refl, String, List, [], ◌∷◌, All, length, arith}
use mdai_operator.Api.{Action, AutomationRule, MdaiHubSpec, payload_count}
use mdai_operator.Webhook.{Parsers, Accepts}
use mdai_operator.Webhook.Hub.Updates.{validate}
use mdai_operator.Webhook.Hub.Updates.Accepted.{validate-Accepts}
use mdai_operator.Webhook.Hub.Actions.Accepted.{Runs, rules_of, automations-accepted}
use mdai_operator.Controller.Events.{Payload, Command, Result, ok, transform_then_to_commands}
use mdai_operator.Controller.Events.Commands.{total_count, transform_then-total}

module _ (marshal : Payload → Result String)
    (total : (p : Payload) → (text : String) × (marshal p ≡ ok text)) where
  at_least :
      (actions : List Action)
      → All (λ a. payload_count a ≡ 1) actions
      → All (λ a. 1 ≤ payload_count a) actions
  at_least [] h = tt
  at_least (a ∷ rest) h = (omega (arith, h.0), at_least rest h.1)

  total-length :
      (actions : List Action)
      → All (λ a. payload_count a ≡ 1) actions
      → total_count marshal total actions ≡ length actions
  total-length [] h = refl
  total-length (a ∷ rest) h = omega (arith, h.0, total-length rest h.1)

  -- The actions become a command each, at least one of them.
  abbrev pub OneEach : AutomationRule → Type 0
  OneEach rule =
      (cmds : List Command) × (transform_then_to_commands marshal rule.then_do ≡ ok cmds)
      × (length cmds ≡ length rule.then_do)
      × (1 ≤ length cmds)

  one_each : (parsers : Parsers) (rule : AutomationRule) → Runs parsers rule → OneEach rule
  one_each parsers rule ((a, rest, e), h) =
      let (cmds, k, n) = transform_then-total marshal total rule.then_do (at_least _ h) in
      let m : length cmds ≡ length rule.then_do = omega (arith, n, total-length _ h) in
      (cmds, k, m, rw m (rw e (omega arith)))

  each :
      (parsers : Parsers) (rules : List AutomationRule)
      → All (Runs parsers) rules
      → All OneEach rules
  each parsers [] h = tt
  each parsers (rule ∷ rules) h = (one_each parsers rule h.0, each parsers rules h.1)

  -- Suppose that every payload can be encoded. In a hub that `Validate` accepts, the actions of each
  -- rule are turned into commands without an error, one command for each action, and at least one.
  pub rules-OneEach :
      (parsers : Parsers) (spec : MdaiHubSpec)
      → Accepts (validate parsers spec)
      → All OneEach (rules_of spec.rules)
  rules-OneEach parsers spec h =
      each parsers _ (automations-accepted parsers spec ((validate-Accepts parsers spec).0 h).2)
