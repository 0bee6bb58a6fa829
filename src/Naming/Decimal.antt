-- ===== src/Naming/Decimal.antt =====
-- What `%d` prints of an int32 in internal/naming/port.go: all of its digits.
use mdai_operator.Prelude.{
  ℕ, zero, suc, ◌+◌, ◌-◌, ◌*◌, ◌/◌, ◌%◌, ◌^◌, ◌<◌, ◌≡◌, refl, ap, ◌∙◌, List, [], ◌∷◌, ◌++◌, Bool,
  true, false, arith, eqb, ltb, if◌then◌else◌,
}
use mdai_operator.Naming.Port.{Int32, pos, negsuc, digits, print_int}

-- The number that a text of digits is, after a number that was read.
unfoldable pub read : ℕ → List ℕ → ℕ
read n [] = n
read n (c ∷ s) = read (10 * n + (c - 48)) s

-- A text with a sign for a negative number.
unfoldable pub read_int : List ℕ → Int32
unfolding read
read_int [] = pos 0
read_int (c ∷ s) = if eqb c b'-' then negsuc (read 0 s - 1) else pos (read 0 (c ∷ s))

unfoldable pub fits_int32 : Int32 → Bool
fits_int32 (pos n) = ltb n (2 ^ 31)
fits_int32 (negsuc n) = ltb n (2 ^ 31)

read-append : (n c : ℕ) (s : List ℕ) → read n (s ++ c ∷ []) ≡ 10 * read n s + (c - 48)
unfolding read
read-append n c [] = refl
read-append n c (d ∷ s) = read-append (10 * n + (d - 48)) c s

read-digits : (f n : ℕ) → n < 10 ^ f → read 0 (digits f n) ≡ n
unfolding read digits
read-digits zero n h = omega arith
read-digits (suc f) n h =
    ground (arith, read-append 0 (48 + n % 10) (digits f (n / 10)), read-digits f (n / 10))

unfoldable has_sign : List ℕ → Bool
has_sign [] = false
has_sign (c ∷ s) = eqb c b'-'

has_sign-append :
    (s t : List ℕ) → has_sign s ≡ false → has_sign t ≡ false → has_sign (s ++ t) ≡ false
unfolding has_sign
has_sign-append [] t h k = k
has_sign-append (c ∷ s) t h k = h

has_sign-digits : (f n : ℕ) → has_sign (digits f n) ≡ false
unfolding has_sign digits
has_sign-digits zero n = refl
has_sign-digits (suc f) n =
    ground
      (arith, has_sign-append (digits f (n / 10)) ((48 + n % 10) ∷ []) (has_sign-digits f (n / 10)))

read_int-unsigned : (s : List ℕ) → has_sign s ≡ false → read_int s ≡ pos (read 0 s)
unfolding read_int has_sign read
read_int-unsigned [] h = refl
read_int-unsigned (c ∷ s) h = ground arith

-- Ten is enough fuel: from the text of an int32 the same int32 is read back.
read_int-print_int : (p : Int32) → fits_int32 p ≡ true → read_int (print_int p) ≡ p
unfolding print_int fits_int32 read_int
read_int-print_int (pos n) h =
    read_int-unsigned (digits 10 n) (has_sign-digits 10 n)
    ∙ ap pos (read-digits 10 n (ground arith))
read_int-print_int (negsuc n) h =
    ap (λ m. negsuc (m - 1)) (read-digits 10 (suc n) (ground arith)) ∙ ap negsuc (omega arith)
