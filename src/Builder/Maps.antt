-- ===== src/Builder/Maps.antt =====
-- Maps that may be nil: `if m == nil { m = make(map[string]string) }; m[key] = value`.
use mdai_operator.Prelude.{
  ◌≡◌, String, Option, none, some, [], Dict, lookup, insert, lookup_after-insert, if◌then◌else◌,
  ◌==◌,
}

unfoldable pub or_empty {ℓ} : {A : Type ℓ} → Option (Dict A) → Dict A
or_empty none = []
or_empty (some m) = m

unfoldable pub set_entry {ℓ} : {A : Type ℓ} → String → A → Option (Dict A) → Option (Dict A)
unfolding or_empty insert
set_entry key value m = some (insert key value (or_empty m))

-- Reading a nil map finds nothing.
unfoldable pub find {ℓ} : {A : Type ℓ} → String → Option (Dict A) → Option A
unfolding or_empty lookup
find key m = lookup key (or_empty m)

pub find_after-set_entry {ℓ} :
    {A : Type ℓ} (key j : String) (value : A) (m : Option (Dict A))
    → find j (set_entry key value m) ≡ (if key == j then some value else find j m)
unfolding find set_entry or_empty
find_after-set_entry key j value m = lookup_after-insert key j value (or_empty m)
