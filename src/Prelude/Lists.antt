-- ===== src/Prelude/Lists.antt =====
-- Lists measured by native numbers, a predicate on every element, and Boolean membership tests.
use Prim.Native.Nat.{ℕ, suc, ◌+◌}
use mathlib.Core.Path.{◌≡◌, refl}
use mathlib.Core.List.{List, [], ◌∷◌, ◌++◌}
use mathlib.Core.Bool.{Bool, true, false, ◌&&◌}
use mathlib.Core.Option.{Option, none, some}
use native.Mathlib.Omega.{arith}

module _ {ℓ} {A : Type ℓ} where
  abbrev pub length : List A → ℕ
  length [] = 0
  length (x ∷ xs) = suc (length xs)

  pub length-append : (xs ys : List A) → length (xs ++ ys) ≡ length xs + length ys
  length-append [] ys = omega arith
  length-append (x ∷ xs) ys = omega (arith, length-append xs ys)

  pub append-eq-nil : (xs ys : List A) → (xs ++ ys) ≡ [] → (xs ≡ []) × (ys ≡ [])
  append-eq-nil [] ys h = (refl, h)
  append-eq-nil (x ∷ xs) ys h = cc

  pub append-nil-nil : (xs ys : List A) → xs ≡ [] → ys ≡ [] → (xs ++ ys) ≡ []
  append-nil-nil [] ys h k = k
  append-nil-nil (x ∷ xs) ys h k = cc

  abbrev pub is_nil : List A → Bool
  is_nil [] = true
  is_nil (x ∷ xs) = false

  pub is_nil-append : (xs ys : List A) → is_nil (xs ++ ys) ≡ is_nil xs && is_nil ys
  is_nil-append [] ys = refl
  is_nil-append (x ∷ xs) ys = refl

  pub nil-is_nil : (xs : List A) → is_nil xs ≡ true → xs ≡ []
  nil-is_nil [] h = refl
  nil-is_nil (x ∷ xs) h = cc

  abbrev pub all : (A → Bool) → List A → Bool
  all p [] = true
  all p (x ∷ xs) = p x && all p xs

  -- The values that are there, in order.
  abbrev pub present : List (Option A) → List A
  present [] = []
  present (none ∷ os) = present os
  present (some a ∷ os) = a ∷ present os

module _ {ℓ κ} {A : Type ℓ} where
  abbrev pub All : (A → Type κ) → List A → Type κ
  All P [] = Unit
  All P (x ∷ xs) = P x × All P xs

  pub All-append : (P : A → Type κ) (xs ys : List A) → All P xs → All P ys → All P (xs ++ ys)
  All-append P [] ys h k = k
  All-append P (x ∷ xs) ys h k = (h.0, All-append P xs ys h.1 k)
