-- ===== src/Naming/Port.antt =====
-- internal/naming/port.go
use mdai_operator.Prelude.{
  ℕ, zero, suc, ◌+◌, ◌/◌, ◌%◌, List, [], ◌∷◌, ◌++◌, Bool, true, ◌&&◌, ◌||◌, length, codes, ltb, eqb,
  if◌then◌else◌,
}
use mdai_operator.Naming.Truncate.{is_alphanumeric}

-- An int32: a number, or one less than its negation.
pub data Int32 : Type 0 where
  pos : ℕ → Int32
  negsuc : ℕ → Int32

-- Decimal digits on fuel; a number below 10 ^ f has at most f of them.
unfoldable pub digits : ℕ → ℕ → List ℕ
digits zero n = []
digits (suc f) n =
    let front = digits f (n / 10) in if ltb n 10 then (48 + n) ∷ [] else front ++ (48 + n % 10) ∷ []

-- `%d`; an int32 has at most ten digits.
unfoldable pub print_int : Int32 → List ℕ
unfolding digits
print_int (pos n) = digits 10 n
print_int (negsuc n) = b'-' ∷ digits 10 (suc n)

-- Both calls of strings.ReplaceAll.
unfoldable pub dashed : List ℕ → List ℕ
dashed [] = []
dashed (c ∷ s) = (if eqb c b'/' || eqb c b'_' then b'-' else c) ∷ dashed s

unfoldable pub all_inner : List ℕ → Bool
unfolding is_alphanumeric
all_inner [] = true
all_inner (c ∷ s) = (is_alphanumeric c || eqb c b'-' || eqb c b'_' || eqb c b'.') && all_inner s

unfoldable pub ends_alphanumeric : ℕ → List ℕ → Bool
unfolding is_alphanumeric
ends_alphanumeric c [] = is_alphanumeric c
ends_alphanumeric c (d ∷ s) = ends_alphanumeric d s

-- dnsLabelValidation: the empty text passes.
unfoldable pub is_dns_label : List ℕ → Bool
unfolding all_inner ends_alphanumeric is_alphanumeric
is_dns_label [] = true
is_dns_label (c ∷ s) = is_alphanumeric c && (all_inner s && ends_alphanumeric c s)

unfoldable pub numbered : Int32 → List ℕ
unfolding print_int
numbered port = codes "port-" ++ print_int port

unfoldable pub port_name : List ℕ → Int32 → List ℕ
unfolding numbered dashed is_dns_label
port_name receiver_name port =
    if ltb 15 (length receiver_name)
    then numbered port
    else if is_dns_label (dashed receiver_name)
    then dashed receiver_name
    else numbered port
