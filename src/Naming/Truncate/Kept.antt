-- ===== src/Naming/Truncate/Kept.antt =====
-- What the steps of `Truncate` in internal/naming/triming.go keep: ASCII texts, and a letter or a digit.
use mdai_operator.Prelude.{
  ℕ, zero, suc, ◌-◌, ◌≤◌, ◌<◌, ◌≡◌, refl, ◌∙◌, List, [], ◌∷◌, ◌++◌, Bool, true, false, not, ◌&&◌,
  ◌||◌, length, is_nil, all, ltb, arith, if◌then◌else◌, Bool-cases, inl, inr,
}
use mdai_operator.Naming.Truncate.{
  Part, fixed, text, other, is_alphanumeric, print, take, cut, shorten, trim_end, trim_start,
  trim_non_alphanumeric, cap, truncate,
}

abbrev pub is_ascii : ℕ → Bool
is_ascii c = ltb c 0x80

-- ASCII texts are kept by the steps of `Truncate`.
all-append : (p : ℕ → Bool) (s t : List ℕ) → all p (s ++ t) ≡ (all p s && all p t)
all-append p [] t = refl
all-append p (c ∷ s) t = ground (arith, all-append p s t)

all-take : (p : ℕ → Bool) (n : ℕ) (s : List ℕ) → all p s ≡ true → all p (take n s) ≡ true
unfolding take
all-take p zero s h = refl
all-take p (suc n) [] h = refl
all-take p (suc n) (c ∷ s) h = ground (arith, all-take p n s)

all-trim_end : (p : ℕ → Bool) (s : List ℕ) → all p s ≡ true → all p (trim_end s) ≡ true
unfolding trim_end
all-trim_end p [] h = refl
all-trim_end p (c ∷ s) h = ground (arith, all-trim_end p s)

all-trim_start : (p : ℕ → Bool) (s : List ℕ) → all p s ≡ true → all p (trim_start s) ≡ true
unfolding trim_start
all-trim_start p [] h = refl
all-trim_start p (c ∷ s) h = ground (arith, all-trim_start p s)

part_text : Part → List ℕ
part_text (fixed s) = s
part_text (text s) = s
part_text (other s) = s

abbrev pub all_ascii : List Part → Bool
all_ascii [] = true
all_ascii (fixed s ∷ parts) = all is_ascii s && all_ascii parts
all_ascii (text s ∷ parts) = all is_ascii s && all_ascii parts
all_ascii (other s ∷ parts) = all is_ascii s && all_ascii parts

ascii-print : (parts : List Part) → all is_ascii (print parts) ≡ all_ascii parts
unfolding print
ascii-print [] = refl
ascii-print (fixed s ∷ parts) =
    ground (arith, all-append is_ascii s (print parts), ascii-print parts)
ascii-print (text s ∷ parts) =
    ground (arith, all-append is_ascii s (print parts), ascii-print parts)
ascii-print (other s ∷ parts) =
    ground (arith, all-append is_ascii s (print parts), ascii-print parts)

ascii-shorten :
    (excess : ℕ) (parts : List Part)
    → all_ascii parts ≡ true
    → all_ascii (shorten excess parts) ≡ true
unfolding shorten cut
ascii-shorten excess [] h = refl
ascii-shorten excess (fixed s ∷ parts) h = ground (arith, ascii-shorten excess parts)
ascii-shorten excess (other s ∷ parts) h = ground (arith, ascii-shorten excess parts)
ascii-shorten excess (text s ∷ parts) h = ground (
  arith,
  ascii-shorten 0 parts,
  ascii-shorten (excess - length s) parts,
  all-take is_ascii (length s - excess) s,
)

ascii-cap : (n : ℕ) (s : List ℕ) → all is_ascii s ≡ true → all is_ascii (cap n s) ≡ true
unfolding cap trim_non_alphanumeric
ascii-cap n s h = ground (
  arith,
  all-take is_ascii n s h,
  all-trim_start is_ascii (trim_end s) (all-trim_end is_ascii s h),
)

pub ascii-truncate :
    (n : ℕ) (parts : List Part) → all_ascii parts ≡ true → all is_ascii (truncate n parts) ≡ true
unfolding truncate
ascii-truncate n parts h = ascii-cap n _ (elim (Bool-cases (ltb n (length (print parts)))) [
  | inl k ↦ rw k (
      ascii-print (shorten (length (print parts) - n) parts)
      ∙ ascii-shorten (length (print parts) - n) parts h)
  | inr k ↦ rw k (ascii-print parts ∙ h)
])

-- Texts with a letter or a digit stay so.
abbrev pub any : (ℕ → Bool) → List ℕ → Bool
any p [] = false
any p (c ∷ s) = p c || any p s

any-append :
    (s t : List ℕ) → any is_alphanumeric (s ++ t) ≡ (any is_alphanumeric s || any is_alphanumeric t)
any-append [] t = refl
any-append (c ∷ s) t = ground (arith, any-append s t)

any-trim_end : (s : List ℕ) → any is_alphanumeric (trim_end s) ≡ any is_alphanumeric s
unfolding trim_end
any-trim_end [] = refl
any-trim_end (c ∷ s) = dropped c (trim_end s) (any is_alphanumeric s) (any-trim_end s)
  where
    dropped :
        (d : ℕ) (r : List ℕ) (b : Bool)
        → any is_alphanumeric r ≡ b
        → any is_alphanumeric (if is_nil r && not (is_alphanumeric d) then [] else d ∷ r)
          ≡ (is_alphanumeric d || b)
    dropped d [] b h = ground arith
    dropped d (e ∷ r) b h = ground arith

any-trim_start : (s : List ℕ) → any is_alphanumeric (trim_start s) ≡ any is_alphanumeric s
unfolding trim_start
any-trim_start [] = refl
any-trim_start (c ∷ s) = ground (arith, any-trim_start s)

any-not_nil : (s : List ℕ) → any is_alphanumeric s ≡ true → is_nil s ≡ false
any-not_nil [] h = cc
any-not_nil (c ∷ s) h = refl

take-not_nil : (n : ℕ) (s : List ℕ) → 1 ≤ n → n < length s → is_nil (take n s) ≡ false
unfolding take
take-not_nil zero s h k = ground arith
take-not_nil (suc n) [] h k = ground arith
take-not_nil (suc n) (c ∷ s) h k = refl

cap-not_nil : (n : ℕ) (s : List ℕ) → 1 ≤ n → any is_alphanumeric s ≡ true → is_nil (cap n s) ≡ false
unfolding cap trim_non_alphanumeric
cap-not_nil n s h k = ground (
  arith,
  take-not_nil n s,
  any-not_nil (trim_start (trim_end s)) (any-trim_start (trim_end s) ∙ any-trim_end s ∙ k),
)

-- A letter or a digit in the format's own text, or in a text that is not shortened.
abbrev pub fixed_any : List Part → Bool
fixed_any [] = false
fixed_any (fixed s ∷ parts) = any is_alphanumeric s || fixed_any parts
fixed_any (text s ∷ parts) = fixed_any parts
fixed_any (other s ∷ parts) = fixed_any parts

any-print : (parts : List Part) → fixed_any parts ≡ true → any is_alphanumeric (print parts) ≡ true
unfolding print
any-print [] h = cc
any-print (fixed s ∷ parts) h = ground (arith, any-append s (print parts), any-print parts)
any-print (text s ∷ parts) h = ground (arith, any-append s (print parts), any-print parts)
any-print (other s ∷ parts) h = ground (arith, any-append s (print parts), any-print parts)

fixed_any-shorten :
    (excess : ℕ) (parts : List Part) → fixed_any (shorten excess parts) ≡ fixed_any parts
unfolding shorten cut
fixed_any-shorten excess [] = refl
fixed_any-shorten excess (fixed s ∷ parts) = rw (fixed_any-shorten excess parts) refl
fixed_any-shorten excess (other s ∷ parts) = fixed_any-shorten excess parts
fixed_any-shorten excess (text s ∷ parts) =
    ground (arith, fixed_any-shorten 0 parts, fixed_any-shorten (excess - length s) parts)

pub truncate-not_nil :
    (n : ℕ) (parts : List Part) → 1 ≤ n → fixed_any parts ≡ true → is_nil (truncate n parts) ≡ false
unfolding truncate
truncate-not_nil n parts h k = cap-not_nil n _ h (elim (Bool-cases (ltb n (length (print parts)))) [
  | inl l ↦ rw l (
      any-print (shorten (length (print parts) - n) parts)
        (fixed_any-shorten (length (print parts) - n) parts ∙ k))
  | inr l ↦ rw l (any-print parts k)
])
