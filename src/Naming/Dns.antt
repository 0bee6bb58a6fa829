-- ===== src/Naming/Dns.antt =====
-- internal/naming/dns.go. `unicode_lower` is unicode.ToLower on code points that are not ASCII.
use mdai_operator.Prelude.{
  ℕ, ◌+◌, List, [], ◌∷◌, Bool, ◌&&◌, ◌||◌, length, ltb, leb, eqb, if◌then◌else◌,
}

-- `[a-z0-9]`
unfoldable pub is_dns : ℕ → Bool
is_dns c = (leb b'a' c && leb c b'z') || (leb b'0' c && leb c b'9')

-- The number of bytes of a code point in UTF-8.
unfoldable pub rune_len : ℕ → ℕ
rune_len c = if ltb c 0x80 then 1 else if ltb c 0x800 then 2 else if ltb c 0x10000 then 3 else 4

module _ (unicode_lower : ℕ → ℕ) where
  unfoldable pub lower : ℕ → ℕ
  lower c = if ltb c 0x80 then (if leb b'A' c && leb c b'Z' then c + 32 else c) else unicode_lower c

  -- strings.ToLower
  unfoldable pub to_lower : List ℕ → List ℕ
  unfolding lower
  to_lower [] = []
  to_lower (c ∷ s) = lower c ∷ to_lower s

  -- The character for `x` at the byte index `i` of a name of `count` code points.
  unfoldable pub dns_char : ℕ → ℕ → ℕ → ℕ
  unfolding is_dns
  dns_char count i x = if is_dns x then x else if eqb i 0 || eqb (i + 1) count then b'a' else b'-'

  -- The loop, from the byte index `i`.
  unfoldable pub dns_from : ℕ → ℕ → List ℕ → List ℕ
  unfolding dns_char rune_len
  dns_from count i [] = []
  dns_from count i (x ∷ s) = dns_char count i x ∷ dns_from count (i + rune_len x) s

  unfoldable pub dns_name : List ℕ → List ℕ
  unfolding dns_from to_lower
  dns_name name = dns_from (length name) 0 (to_lower name)
