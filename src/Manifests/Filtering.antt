-- ===== src/Manifests/Filtering.antt =====
-- The loops of internal/manifests/collector that delete elements of a slice from its end:
-- `for i := len(ports) - 1; i >= 0; i-- { if … { ports = append(ports[:i], ports[i+1:]...) } }`.
use mathlib.Core.Option
use mdai_operator.Prelude.{
  ℕ, zero, suc, ◌≡◌, refl, ap, ◌∙◌, List, [], ◌∷◌, Option, none, some, Bool, arith, length,
  if◌then◌else◌,
}

module _ {A : Type 0} where
  -- xs[i]
  unfoldable pub get_elem? : List A → ℕ → Option A
  get_elem? [] i = none
  get_elem? (x ∷ xs) zero = some x
  get_elem? (x ∷ xs) (suc i) = get_elem? xs i

  -- append(xs[:i], xs[i+1:]...)
  unfoldable pub delete_at : ℕ → List A → List A
  delete_at i [] = []
  delete_at zero (x ∷ xs) = xs
  delete_at (suc i) (x ∷ xs) = x ∷ delete_at i xs

  module _ (keep : A → Bool) where
    -- The rounds for the indices below `i`; an index out of range panics.
    unfoldable pub delete_from_end : ℕ → List A → Option (List A)
    unfolding get_elem? delete_at
    delete_from_end zero xs = some xs
    delete_from_end (suc i) xs =
        let rest =
          delete_from_end i (elim (get_elem? xs i) [
            | none ↦ xs
            | some x ↦ if keep x then xs else delete_at i xs
          ]) in
        elim (get_elem? xs i) [ none ↦ none | some x ↦ rest ]

    unfoldable pub delete_others : List A → Option (List A)
    unfolding delete_from_end
    delete_others xs = delete_from_end (length xs) xs

    -- What is to be kept, in order.
    unfoldable pub filter : List A → List A
    filter [] = []
    filter (x ∷ xs) = let rest = filter xs in if keep x then x ∷ rest else rest

    abbrev put : A → List A → List A
    put x xs = if keep x then x ∷ xs else xs

    -- The first element is visited last.
    delete_from_end-cons :
        (i : ℕ) (x : A) (xs : List A)
        → delete_from_end (suc i) (x ∷ xs) ≡ Option.map (put x) (delete_from_end i xs)
    unfolding delete_from_end get_elem? delete_at
    delete_from_end-cons zero x xs = refl
    delete_from_end-cons (suc i) x xs =
        ground (arith, delete_from_end-cons i x xs, delete_from_end-cons i x (delete_at i xs))

    -- The loop never reads an index that is out of range, and what it leaves are the elements that
    -- pass the test, in their order.
    pub delete_others-filter : (xs : List A) → delete_others xs ≡ some (filter xs)
    unfolding delete_others filter delete_from_end
    delete_others-filter [] = refl
    delete_others-filter (x ∷ xs) =
        delete_from_end-cons (length xs) x xs ∙ ap (Option.map (put x)) (delete_others-filter xs)
