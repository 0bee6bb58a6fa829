-- ===== src/Naming/Labels.antt =====
-- What the names are like: bounds on their lengths, and the characters of a DNS label.
use mdai_operator.Prelude.{
  ℕ, zero, suc, ◌+◌, ◌≤◌, ◌≡◌, refl, ◌∙◌, List, [], ◌∷◌, Bool, true, false, ◌||◌, length, is_nil,
  all, eqb, arith, and-eq-true,
}
use mdai_operator.Naming.Truncate.{
  Part, take, trim_end, trim_start, trim_non_alphanumeric, cap, truncate,
}
use mdai_operator.Naming.Truncate.Kept.{
  is_ascii, all_ascii, fixed_any, ascii-truncate, truncate-not_nil,
}
use mdai_operator.Naming.Dns.{is_dns, rune_len, lower, to_lower, dns_char, dns_from, dns_name}
use mdai_operator.Naming.Names.{label, max_label}

-- Lengths
length-take : (n : ℕ) (s : List ℕ) → length (take n s) ≤ n
unfolding take
length-take zero s = omega arith
length-take (suc n) [] = omega arith
length-take (suc n) (c ∷ s) = omega (arith, length-take n s)

length-trim_end : (s : List ℕ) → length (trim_end s) ≤ length s
unfolding trim_end
length-trim_end [] = omega arith
length-trim_end (c ∷ s) = ground (arith, length-trim_end s)

length-trim_start : (s : List ℕ) → length (trim_start s) ≤ length s
unfolding trim_start
length-trim_start [] = omega arith
length-trim_start (c ∷ s) = ground (arith, length-trim_start s)

length-cap : (n : ℕ) (s : List ℕ) → length (cap n s) ≤ n
unfolding cap trim_non_alphanumeric
length-cap n s = ground (arith, length-take n s, length-trim_start (trim_end s), length-trim_end s)

-- `Truncate` never returns more than the maximum, whatever the format and the values are.
pub length-truncate : (n : ℕ) (parts : List Part) → length (truncate n parts) ≤ n
unfolding truncate
length-truncate n parts = length-cap n _

module _ (unicode_lower : ℕ → ℕ) where
  length-to_lower : (s : List ℕ) → length (to_lower unicode_lower s) ≡ length s
  unfolding to_lower
  length-to_lower [] = refl
  length-to_lower (c ∷ s) = omega (arith, length-to_lower s)

  length-dns_from :
      (count i : ℕ) (s : List ℕ) → length (dns_from unicode_lower count i s) ≡ length s
  unfolding dns_from
  length-dns_from count i [] = refl
  length-dns_from count i (x ∷ s) = omega (arith, length-dns_from count (i + rune_len x) s)

  length-dns_name : (s : List ℕ) → length (dns_name unicode_lower s) ≡ length s
  unfolding dns_name
  length-dns_name s = length-dns_from (length s) 0 _ ∙ length-to_lower s

  -- A character of a DNS label.
  abbrev pub is_label_char : ℕ → Bool
  is_label_char c = is_dns c || eqb c b'-'

  abbrev pub first_is : (ℕ → Bool) → List ℕ → Bool
  first_is p [] = true
  first_is p (c ∷ s) = p c

  abbrev pub last_is : (ℕ → Bool) → List ℕ → Bool
  last_is p [] = true
  last_is p (c ∷ []) = p c
  last_is p (c ∷ d ∷ s) = last_is p (d ∷ s)

  dns_char-is_label : (count i x : ℕ) → is_label_char (dns_char unicode_lower count i x) ≡ true
  unfolding dns_char is_dns
  dns_char-is_label count i x = ground arith

  all-dns_from :
      (count i : ℕ) (s : List ℕ) → all is_label_char (dns_from unicode_lower count i s) ≡ true
  unfolding dns_from
  all-dns_from count i [] = refl
  all-dns_from count i (x ∷ s) =
      rw (dns_char-is_label count i x) (all-dns_from count (i + rune_len x) s)

  first-dns_from :
      (count : ℕ) (s : List ℕ) → first_is is_dns (dns_from unicode_lower count 0 s) ≡ true
  unfolding dns_from dns_char is_dns
  first-dns_from count [] = refl
  first-dns_from count (x ∷ s) = ground arith

  ascii-lower :
      (s : List ℕ) → all is_ascii s ≡ true → all is_ascii (to_lower unicode_lower s) ≡ true
  unfolding to_lower lower
  ascii-lower [] h = refl
  ascii-lower (c ∷ s) h = ground (arith, ascii-lower s)

  last-dns_char : (count i x : ℕ) → i + 1 ≡ count → is_dns (dns_char unicode_lower count i x) ≡ true
  unfolding dns_char is_dns
  last-dns_char count i x h = ground arith

  ascii-rune_len : (x : ℕ) → is_ascii x ≡ true → rune_len x ≡ 1
  unfolding rune_len
  ascii-rune_len x h = ground arith

  last-dns_from :
      (count i : ℕ) (s : List ℕ)
      → all is_ascii s ≡ true
      → i + length s ≡ count
      → last_is is_dns (dns_from unicode_lower count i s) ≡ true
  unfolding dns_from rune_len
  last-dns_from count i [] h k = refl
  last-dns_from count i (x ∷ []) h k = last-dns_char count i x (omega (arith, k))
  last-dns_from count i (x ∷ y ∷ s) h k =
      let one : rune_len x ≡ 1 = ascii-rune_len x (and-eq-true (is_ascii x) _ h).0 in
      last-dns_from count (i + rune_len x) (y ∷ s) (and-eq-true (is_ascii x) _ h).1
        (omega (arith, k, one))

  last-dns_name :
      (s : List ℕ) → all is_ascii s ≡ true → last_is is_dns (dns_name unicode_lower s) ≡ true
  unfolding dns_name
  last-dns_name s h =
      last-dns_from (length s) 0 (to_lower unicode_lower s) (ascii-lower s h)
        (omega (arith, length-to_lower s))

  -- For any text, `DNSName` keeps the number of characters, its characters are those of a DNS label and
  -- the first one is a letter or a digit.
  dns_name_chars :
      (s : List ℕ)
      → (length (dns_name unicode_lower s) ≡ length s)
        × (all is_label_char (dns_name unicode_lower s) ≡ true)
        × (first_is is_dns (dns_name unicode_lower s) ≡ true)
  unfolding dns_name
  dns_name_chars s = (
    length-dns_name s,
    all-dns_from (length s) 0 (to_lower unicode_lower s),
    first-dns_from (length s) (to_lower unicode_lower s),
  )

  -- A DNS label: from 1 to 63 letters, digits and dashes, without a dash at an end.
  pub record IsLabel (s : List ℕ) : Type 0 where
    pub nonempty : is_nil s ≡ false
    pub short : length s ≤ max_label
    pub chars : all is_label_char s ≡ true
    pub first : first_is is_dns s ≡ true
    pub last : last_is is_dns s ≡ true

  is_nil-dns_name : (s : List ℕ) → is_nil (dns_name unicode_lower s) ≡ is_nil s
  unfolding dns_name dns_from to_lower
  is_nil-dns_name [] = refl
  is_nil-dns_name (c ∷ s) = refl

  -- If the texts of a format are ASCII and its own text has a letter or a digit, then
  -- DNSName(Truncate(format, 63, values...)) is a DNS label, however long the values are.
  pub label-IsLabel :
      (parts : List Part)
      → all_ascii parts ≡ true
      → fixed_any parts ≡ true
      → IsLabel (label unicode_lower parts)
  unfolding label
  label-IsLabel parts h k = record {
    nonempty = is_nil-dns_name _ ∙ truncate-not_nil max_label parts (omega arith) k;
    short =
        omega (arith, length-dns_name (truncate max_label parts), length-truncate max_label parts);
    chars = (dns_name_chars (truncate max_label parts)).1;
    first = (dns_name_chars (truncate max_label parts)).2;
    last = last-dns_name (truncate max_label parts) (ascii-truncate max_label parts h);
  }
