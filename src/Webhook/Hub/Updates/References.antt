-- ===== src/Webhook/Hub/Updates/References.antt =====
-- When `validateMetaVarRefs` lets an update of the variables pass.
use mdai_operator.Prelude.{
  ℕ, suc, ◌≡◌, refl, sym, String, List, [], ◌∷◌, Option, none, some, Bool, true, ◌&&◌, ◌==◌, Dict,
  lookup, insert, lookup_after-insert, is_nil, is_nil-append, all, arith, if◌then◌else◌, Bool-cases,
  inl, inr,
}
use mdai_operator.Api.{Variable}
use mdai_operator.Webhook.Hub.Variables.{is_meta}
use mdai_operator.Webhook.Hub.Updates.{
  same_refs, meta_refs, refs_error, refs_changes, validate_meta_var_refs,
}

-- The references of the last meta variable with the key, among the variables and after a default.
abbrev pub last_meta :
    String → List Variable → Option (Option (List String)) → Option (Option (List String))
last_meta key [] default = default
last_meta key (v ∷ vs) default =
    last_meta key vs (if is_meta v.type && v.key == key then some v.variable_refs else default)

abbrev pub unchanged_refs : Option (List String) → Option (Option (List String)) → Bool
unchanged_refs new none = true
unchanged_refs new (some old) = same_refs old new

-- A meta variable that was one before under its key has the same references as then.
abbrev pub keeps_refs : List Variable → Variable → Bool
keeps_refs old v =
    if is_meta v.type then unchanged_refs v.variable_refs (last_meta v.key old none) else true

lookup-meta_refs :
    (key : String) (refs : Dict (Option (List String))) (vs : List Variable)
    → lookup key (meta_refs refs vs) ≡ last_meta key vs (lookup key refs)
unfolding meta_refs
lookup-meta_refs key refs [] = refl
lookup-meta_refs key refs (v ∷ vs) = elim (Bool-cases (is_meta v.type)) [
  | inl m ↦ rw m (
      rw (lookup-meta_refs key (insert v.key v.variable_refs refs) vs)
        (rw (lookup_after-insert v.key key v.variable_refs refs) refl))
  | inr m ↦ rw m (lookup-meta_refs key refs vs)
]

is_nil-refs_error :
    (i : ℕ) (new : Option (List String)) (old : Option (Option (List String)))
    → is_nil (refs_error i new old) ≡ unchanged_refs new old
unfolding refs_error
is_nil-refs_error i new none = refl
is_nil-refs_error i new (some old) = ground arith

is_nil-refs_changes :
    (old : List Variable) (i : ℕ) (vs : List Variable)
    → is_nil (refs_changes (meta_refs [] old) i vs) ≡ all (keeps_refs old) vs
unfolding refs_changes lookup
is_nil-refs_changes old i [] = refl
is_nil-refs_changes old i (v ∷ vs) = ground (
  arith,
  is_nil-refs_changes old (suc i) vs,
  is_nil-append
      (if is_meta v.type
        then refs_error i v.variable_refs (lookup v.key (meta_refs [] old))
        else [])
      (refs_changes (meta_refs [] old) (suc i) vs),
  is_nil-refs_error i v.variable_refs (lookup v.key (meta_refs [] old)),
  lookup-meta_refs v.key [] old,
)

keeps_refs-nil : (vs : List Variable) → all (keeps_refs []) vs ≡ true
keeps_refs-nil [] = refl
keeps_refs-nil (v ∷ vs) = ground (arith, keeps_refs-nil vs)

-- An update passes `validateMetaVarRefs` exactly if each new meta variable whose key was that of an
-- old meta variable has the references of the last such variable.
pub is_nil-validate_meta_var_refs :
    (old new : List Variable) → is_nil (validate_meta_var_refs old new) ≡ all (keeps_refs old) new
unfolding validate_meta_var_refs
is_nil-validate_meta_var_refs [] new = sym (keeps_refs-nil new)
is_nil-validate_meta_var_refs (o ∷ os) [] = refl
is_nil-validate_meta_var_refs (o ∷ os) (n ∷ ns) = is_nil-refs_changes (o ∷ os) 0 (n ∷ ns)
