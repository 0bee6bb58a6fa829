-- ===== src/Webhook/Verdicts.antt =====
-- The pair `(admission.Warnings, error)` that every validator of internal/webhook/v1 returns.
use mdai_operator.Prelude.{String, List, Option, none, ◌≡◌}

pub record Verdict (E : Type 0) : Type 0 where
  pub warnings : List String
  pub error : Option E

abbrev pub Accepts : {E : Type 0} → Verdict E → Type 0
Accepts v = v.error ≡ none
