-- ===== src/Builder/Tolerations.antt =====
-- WithTolerations of internal/builder/deployment.go
use mdai_operator.Prelude.{
  ◌≡◌, refl, arith, String, List, [], ◌∷◌, Option, none, some, Bool, true, false, not, ◌&&◌, ◌||◌,
  ◌==◌, all, if◌then◌else◌, eq_iff, Bool-cases, inl, inr,
}

pub record Toleration : Type 0 where
  pub key : String
  pub operator : String
  pub value : String
  pub effect : String

unfoldable pub is_blank : Toleration → Bool
is_blank t = t.key == "" && t.operator == ""

-- Without a key the operator is `Exists`.
unfoldable pub repair : Toleration → Toleration
repair t =
    if t.key == "" && not (t.operator == "Exists") then record t { operator = "Exists" } else t

-- The loop.
unfoldable pub valid_tolerations : List Toleration → List Toleration
unfolding is_blank repair
valid_tolerations [] = []
valid_tolerations (t ∷ ts) =
    let rest = valid_tolerations ts in if is_blank t then rest else repair t ∷ rest

-- An empty result is nil.
unfoldable pub with_tolerations : List Toleration → Option (List Toleration)
unfolding valid_tolerations
with_tolerations ts = elim (valid_tolerations ts) [ [] ↦ none | v ∷ vs ↦ some (v ∷ vs) ]

-- What the API server accepts: without a key, a toleration has the operator `Exists`.
abbrev pub is_accepted : Toleration → Bool
is_accepted t = not (t.key == "") || t.operator == "Exists"

exists_not_blank : (s : String) → (s == "Exists") ≡ true → (s == "") ≡ false
exists_not_blank s h = rw ((eq_iff s "Exists").0 h) refl

accepted-repair : (t : Toleration) → is_accepted (repair t) ≡ true
unfolding repair
accepted-repair t = elim (Bool-cases (t.key == "" && not (t.operator == "Exists"))) [
  | inl h ↦ rw h (ground arith)
  | inr h ↦ rw h (ground arith)
]

repair-accepted : (t : Toleration) → is_accepted t ≡ true → repair t ≡ t
unfolding repair
repair-accepted t h = ground arith

-- The tolerations that are kept are accepted.
pub all-valid_tolerations : (ts : List Toleration) → all is_accepted (valid_tolerations ts) ≡ true
unfolding valid_tolerations
all-valid_tolerations [] = refl
all-valid_tolerations (t ∷ ts) = ground (arith, all-valid_tolerations ts, accepted-repair t)

-- Tolerations that are accepted already are not changed.
valid_tolerations-accepted :
    (ts : List Toleration) → all is_accepted ts ≡ true → valid_tolerations ts ≡ ts
unfolding valid_tolerations is_blank
valid_tolerations-accepted [] h = refl
valid_tolerations-accepted (t ∷ ts) h =
    ground (arith, valid_tolerations-accepted ts, exists_not_blank t.operator, repair-accepted t)
