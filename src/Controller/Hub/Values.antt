-- ===== src/Controller/Hub/Values.antt =====
-- What the hub's adapter reads through `vars.ValkeyAdapter` of the package mdai-data-core, and the
-- result of code that can fail or panic.
use mdai_operator.Prelude.{String, List, Option}
use mdai_operator.Controller.Lifecycle.{ApiError}

pub data Attempt (A : Type 0) : Type 0 where
  ok : A → Attempt A
  err : ApiError → Attempt A
  panic : Attempt A

infixl 5 ◌>>=◌
abbrev pub ◌>>=◌ : {A B : Type 0} → Attempt A → (A → Attempt B) → Attempt B
ok a >>= f = f a
err e >>= f = err e
panic >>= f = panic

-- `get_string` and the two calls for meta variables return `none` where nothing was found.
pub record Values : Type 0 where
  pub get_set_as_string_slice : String → Attempt (List String)
  pub get_string : String → Attempt (Option String)
  pub get_map_as_string : String → Attempt String
  pub get_or_create_meta_priority_list :
      String → Option (List String) → Attempt (Option (List String))
  pub get_or_create_meta_hash_set : (key ref0 ref1 : String) → Attempt (Option String)
