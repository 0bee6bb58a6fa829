-- ===== src/Field.antt =====
-- Field paths and field errors, as internal/webhook/v1/mdaihub_webhook.go builds them by the package
-- k8s.io/apimachinery/pkg/util/validation/field. Only the data is kept, and the text of a path.
use Prim.Native.Nat.{ℕ, suc, zero, ◌+◌, ◌/◌, ◌%◌}
use mdai_operator.Prelude.{
  String, List, [], ◌∷◌, ◌++◌, codes, ltb, if◌then◌else◌, Bool, true, false, ◌&&◌, eqb, reverse,
}

-- A rooted path: `field.NewPath`, `Child`, `Index` and `Key`.
pub data FieldPath : Type 0 where
  root : String → FieldPath
  child : FieldPath → String → FieldPath
  index : FieldPath → ℕ → FieldPath
  key : FieldPath → String → FieldPath

-- Decimal digits, on fuel above the number of digits.
decimal : ℕ → ℕ → List ℕ
decimal zero n = []
decimal (suc f) n =
    let front = decimal f (n / 10) in
    if ltb n 10 then (48 + n) ∷ [] else front ++ (48 + n % 10) ∷ []

-- The text of a path, as code points.
unfoldable pub text : FieldPath → List ℕ
unfolding decimal
text (root name) = codes name
text (child p name) = text p ++ b'.' ∷ codes name
text (index p i) = text p ++ b'[' ∷ (decimal (suc i) i ++ b']' ∷ [])
text (key p k) = text p ++ b'[' ∷ (codes k ++ b']' ∷ [])

has_prefix : List ℕ → List ℕ → Bool
has_prefix s [] = true
has_prefix [] (c ∷ cs) = false
has_prefix (d ∷ s) (c ∷ cs) = eqb d c && has_prefix s cs

-- strings.HasSuffix: a prefix test from the end.
unfoldable pub has_suffix : List ℕ → List ℕ → Bool
unfolding has_prefix
has_suffix s suffix = has_prefix (reverse s) (reverse suffix)

-- The value that an error quotes.
pub data BadValue : Type 0 where
  quoted : String → BadValue
  quoted_all : List String → BadValue
  structured : BadValue

-- `field.Error`, a constructor for each kind that the program builds; the last text is the detail.
pub data FieldError : Type 0 where
  required : FieldPath → String → FieldError
  invalid : FieldPath → BadValue → String → FieldError
  not_supported : FieldPath → String → List String → FieldError
  forbidden : FieldPath → String → FieldError
  duplicate : FieldPath → String → FieldError
