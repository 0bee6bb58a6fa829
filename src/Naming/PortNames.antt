-- ===== src/Naming/PortNames.antt =====
-- The names that `PortName` returns.
use mdai_operator.Prelude.{
  ℕ, zero, suc, ◌+◌, ◌/◌, ◌%◌, ◌≤◌, ◌≡◌, refl, List, [], ◌∷◌, ◌++◌, true, ◌&&◌, length,
  length-append, codes, arith,
}
use mdai_operator.Naming.Truncate.{is_alphanumeric}
use mdai_operator.Naming.Port.{
  pos, digits, print_int, dashed, all_inner, ends_alphanumeric, is_dns_label, numbered, port_name,
}

length-digits : (f n : ℕ) → length (digits f n) ≤ f
unfolding digits
length-digits zero n = omega arith
length-digits (suc f) n =
    ground (arith, length-append (digits f (n / 10)) ((48 + n % 10) ∷ []), length-digits f (n / 10))

length-dashed : (s : List ℕ) → length (dashed s) ≡ length s
unfolding dashed
length-dashed [] = refl
length-dashed (c ∷ s) = omega (arith, length-dashed s)

all_inner-append : (s t : List ℕ) → all_inner (s ++ t) ≡ (all_inner s && all_inner t)
unfolding all_inner
all_inner-append [] t = refl
all_inner-append (c ∷ s) t = ground (arith, all_inner-append s t)

all_inner-digit : (d : ℕ) → d ≤ 9 → all_inner ((48 + d) ∷ []) ≡ true
unfolding all_inner is_alphanumeric
all_inner-digit d h = ground arith

all_inner-digits : (f n : ℕ) → all_inner (digits f n) ≡ true
unfolding digits all_inner
all_inner-digits zero n = refl
all_inner-digits (suc f) n = ground (
  arith,
  all_inner-append (digits f (n / 10)) ((48 + n % 10) ∷ []),
  all_inner-digits f (n / 10),
  all_inner-digit (n % 10),
  all_inner-digit n,
)

ends-append : (c d : ℕ) (s : List ℕ) → ends_alphanumeric c (s ++ d ∷ []) ≡ is_alphanumeric d
unfolding ends_alphanumeric
ends-append c d [] = refl
ends-append c d (e ∷ s) = ends-append e d s

ends-digits : (c f n : ℕ) → ends_alphanumeric c (digits (suc f) n) ≡ true
unfolding digits ends_alphanumeric is_alphanumeric
ends-digits c f n = ground (arith, ends-append c (48 + n % 10) (digits f (n / 10)))

numbered-label : (n : ℕ) → is_dns_label (numbered (pos n)) ≡ true
unfolding numbered print_int is_dns_label all_inner ends_alphanumeric is_alphanumeric
numbered-label n = ground (arith, all_inner-digits 10 n, ends-digits b'-' 9 n)

length-numbered : (n : ℕ) → length (numbered (pos n)) ≤ 15
unfolding numbered print_int
length-numbered n = omega (arith, length-append (codes "port-") (digits 10 n), length-digits 10 n)

-- For a port that is not negative, `PortName` returns at most 15 characters, which pass the validation
-- of DNS labels, whatever the receiver's name is.
pub port_name_label :
    (receiver_name : List ℕ) (n : ℕ)
    → (length (port_name receiver_name (pos n)) ≤ 15)
      × (is_dns_label (port_name receiver_name (pos n)) ≡ true)
unfolding port_name
port_name_label receiver_name n =
    ground (arith, length-numbered n, numbered-label n, length-dashed receiver_name)

dashed-dashed : (s : List ℕ) → dashed (dashed s) ≡ dashed s
unfolding dashed
dashed-dashed [] = refl
dashed-dashed (c ∷ s) = ground (arith, dashed-dashed s)

dashed-append : (s t : List ℕ) → dashed (s ++ t) ≡ dashed s ++ dashed t
unfolding dashed
dashed-append [] t = refl
dashed-append (c ∷ s) t = ground (arith, dashed-append s t)

dashed-digit : (d : ℕ) → dashed ((48 + d % 10) ∷ []) ≡ (48 + d % 10) ∷ []
unfolding dashed
dashed-digit d = ground arith

dashed-digits : (f n : ℕ) → dashed (digits f n) ≡ digits f n
unfolding digits dashed
dashed-digits zero n = refl
dashed-digits (suc f) n = ground (
  arith,
  dashed-append (digits f (n / 10)) ((48 + n % 10) ∷ []),
  dashed-digits f (n / 10),
  dashed-digit n,
)

dashed-numbered : (n : ℕ) → dashed (numbered (pos n)) ≡ numbered (pos n)
unfolding numbered print_int dashed
dashed-numbered n = rw (dashed-digits 10 n) refl

-- A name that `PortName` has made for a port that is not negative is a name that it leaves as it is
-- for the same port.
pub port_name_idem :
    (receiver_name : List ℕ) (n : ℕ)
    → port_name (port_name receiver_name (pos n)) (pos n) ≡ port_name receiver_name (pos n)
unfolding port_name
port_name_idem receiver_name n = ground (
  arith,
  length-numbered n,
  numbered-label n,
  dashed-numbered n,
  length-dashed receiver_name,
  dashed-dashed receiver_name,
)
