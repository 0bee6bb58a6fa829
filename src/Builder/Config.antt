-- ===== src/Builder/Config.antt =====
-- internal/builder/otelconfig.go: the blocks of a collector's configuration, Go's map[string]any. A
-- value has its dynamic type, which the getters test. The floating-point getters, which nothing
-- calls, and the YAML encoding are left out.
use mdai_operator.Prelude.{
  ℕ, ◌≡◌, refl, String, List, Option, none, some, Bool, Dict, ◌==◌, if◌then◌else◌, arith, eq_iff,
}

-- `number` is an int, `whole` a float64 without a fraction, as JSON numbers are decoded, `block` a map[string]any, `config_block` a ConfigBlock, `items` a []any, `texts` a []string and
-- `text_map` a map[string]string; `partition` is a MdaiReplayS3Partition.
mutual
  pub data Value : Type 0 where
    null : Value
    flag : Bool → Value
    number : ℕ → Value
    whole : ℕ → Value
    str : String → Value
    partition : String → Value
    texts : List String → Value
    text_map : Dict String → Value
    items : Items → Value
    block : ConfigBlock → Value
    config_block : ConfigBlock → Value

  pub data Items : Type 0 where
    no_items : Items
    item : Value → Items → Items

  -- The entries of a map, each key once.
  pub data ConfigBlock : Type 0 where
    empty : ConfigBlock
    entry : (key : String) → Value → ConfigBlock → ConfigBlock

-- `m[key]` with its second result
unfoldable pub get : ConfigBlock → (key : String) → Option Value
get empty key = none
get (entry k v rest) key = let later = get rest key in if k == key then some v else later

-- Set: `c[key] = value`
unfoldable pub set : ConfigBlock → (key : String) → Value → ConfigBlock
set empty key value = entry key value empty
set (entry k v rest) key value =
    let later = set rest key value in if k == key then entry k value rest else entry k v later

-- getAs at the type map[string]any
unfoldable pub as_map : Value → Option ConfigBlock
as_map (block c) = some c
as_map _ = none

-- getAs at the type []any
unfoldable pub as_slice : Value → Option Items
as_slice (items xs) = some xs
as_slice _ = none

-- getAs at the type string
unfoldable pub as_string : Value → Option String
as_string (str s) = some s
as_string _ = none

-- getAs at the type int; a negative number does not occur.
unfoldable pub as_int : Value → Option ℕ
as_int (number n) = some n
as_int _ = none

-- getAs: the type assertion is the argument.
unfoldable pub get_as : {A : Type 0} → (Value → Option A) → ConfigBlock → (key : String) → Option A
unfolding get
get_as assert c key = elim (get c key) [ none ↦ none | some v ↦ assert v ]

-- The second result of these is false for `none`; MustMap, MustSlice, MustString and MustInt panic
-- there.
unfoldable pub get_map : ConfigBlock → (key : String) → Option ConfigBlock
unfolding get_as as_map
get_map c key = get_as as_map c key

unfoldable pub get_slice : ConfigBlock → (key : String) → Option Items
unfolding get_as as_slice
get_slice c key = get_as as_slice c key

unfoldable pub get_string : ConfigBlock → (key : String) → Option String
unfolding get_as as_string
get_string c key = get_as as_string c key

unfoldable pub get_int : ConfigBlock → (key : String) → Option ℕ
unfolding get_as as_int
get_int c key = get_as as_int c key

-- What is done to the map that MustMap returns is done to the map in the block, which it shares;
-- `none` is the panic.
unfoldable pub in_map :
    (key : String) → (ConfigBlock → Option ConfigBlock) → ConfigBlock → Option ConfigBlock
unfolding get_map set
in_map key change c = elim (get_map c key) [
  | none ↦ none
  | some inner ↦ elim (change inner) [ none ↦ none | some new ↦ some (set c key (block new)) ]
]

pub get-set :
    (c : ConfigBlock) (new key : String) (v : Value)
    → get (set c new v) key ≡ (if new == key then some v else get c key)
unfolding get set
get-set empty new key v = refl
get-set (entry k w rest) new key v =
    ground (arith, get-set rest new key v, eq_iff k new, eq_iff k key, eq_iff new key)
