-- ===== src/Controller/Hub/Env/Panics.antt =====
-- When syncValkeyVariables of internal/controller/hub_adapter.go cannot panic.
use mdai_operator.Prelude.{
  ◌≡◌, ◌≢◌, refl, insert, String, List, [], ◌∷◌, Option, none, some, Bool, true, false, ◌&&◌,
  and-eq-true, if◌then◌else◌, all, eqb, length,
}
use mdai_operator.Api.{
  Variable, Serializer, VariableTransformer, TransformerType, join, other_transformer,
  JoinTransformer, VariableType, manual, computed, meta, other_type, VariableDataType, int, float,
  boolean, string, set_of, map_of, meta_hash_set, meta_priority_list, other_data_type,
  VariableStorageType, mdai_valkey, other_storage,
}
use mdai_operator.Webhook.Hub.Variables.WellFormed.{
  is_stored, is_sound, has_sound_refs, refs_of, exports_of, may_export, is_well_formed,
}
use mdai_operator.Controller.Hub.Values.{Attempt, ok, err, panic, ◌>>=◌, Values}
use mdai_operator.Controller.Hub.Env.{
  Env, has_name, join_texts, transform, transform_all, serialize_set, serialize_sets,
  apply_set_transformation, apply_found_string, apply_found_set, plain_string, computed_value,
  handle_computed_variable, hash_set_value, meta_value, handle_meta_variable, sync_type,
  sync_variable, Synced, sync_valkey_variables,
}

abbrev Safe : {A : Type 0} → Attempt A → Type 0
Safe x = x ≢ panic

then_Safe :
    {A B : Type 0} (x : Attempt A) (f : A → Attempt B)
    → Safe x
    → ((a : A) → Safe (f a))
    → Safe (x >>= f)
then_Safe (ok a) f h k = k a
then_Safe (err e) f h k = λ p. cc
then_Safe panic f h k = absurd (h refl)

if_Safe : {A : Type 0} (b : Bool) (x y : Attempt A) → Safe x → Safe y → Safe (if b then x else y)
if_Safe true x y h k = h
if_Safe false x y h k = k

ok-Safe : {A : Type 0} (a : A) → Safe (ok a)
ok-Safe a = λ p. cc

-- Each join has its settings.
abbrev pub has_settings : VariableTransformer → Bool
has_settings t = elim t.type [ join ↦ has_name t.join | other_transformer s ↦ true ]

abbrev pub joins_have_settings : Variable → Bool
joins_have_settings v =
    all (λ (s : Serializer). all has_settings s.transformers) (exports_of v.serialize_as)

transform-Safe :
    (name : String) (values : List String) (t : VariableTransformer) (env : Env)
    → has_settings t ≡ true
    → Safe (transform name values t env)
unfolding transform
transform-Safe name values t env h = on_type t.type t.join h
  where
    on_type :
        (type : TransformerType) (o : Option JoinTransformer)
        → (elim type [ join ↦ has_name o | other_transformer s ↦ true ]) ≡ true
        → Safe (elim type [
          | join ↦ elim o [
            | some j ↦ ok (insert name (join_texts values j.delimiter) env)
            | none ↦ panic
          ]
          | other_transformer s ↦ ok env
        ])
    on_type join none k = cc
    on_type join (some j) k = ok-Safe _
    on_type (other_transformer s) o k = ok-Safe env

transform_all-Safe :
    (name : String) (values : List String) (ts : List VariableTransformer) (env : Env)
    → all has_settings ts ≡ true
    → Safe (transform_all name values ts env)
unfolding transform_all
transform_all-Safe name values [] env h = ok-Safe env
transform_all-Safe name values (t ∷ ts) env h =
    let (k, l) = and-eq-true _ _ h in
    then_Safe _ _ (transform-Safe name values t env k) (λ e. transform_all-Safe name values ts e l)

module _ (values : List String) where
  serialize_set-Safe :
      (s : Serializer) (env : Env)
      → all has_settings s.transformers ≡ true
      → Safe (serialize_set values s env)
  unfolding serialize_set
  serialize_set-Safe s env h =
      if_Safe _ _ _ (ok-Safe env) (transform_all-Safe s.name values s.transformers env h)

  serialize_sets-Safe :
      (ss : List Serializer) (env : Env)
      → all (λ (s : Serializer). all has_settings s.transformers) ss ≡ true
      → Safe (serialize_sets values ss env)
  unfolding serialize_sets
  serialize_sets-Safe [] env h = ok-Safe env
  serialize_sets-Safe (s ∷ ss) env h =
      let (k, l) = and-eq-true _ _ h in
      then_Safe _ _ (serialize_set-Safe s env k) (λ e. serialize_sets-Safe ss e l)

  apply_set-Safe :
      (v : Variable) (env : Env)
      → joins_have_settings v ≡ true
      → Safe (apply_set_transformation v env values)
  unfolding apply_set_transformation
  apply_set-Safe v env h = on_serializers v.serialize_as h
    where
      on_serializers :
          (o : Option (List Serializer))
          → all (λ (s : Serializer). all has_settings s.transformers) (exports_of o) ≡ true
          → Safe (elim o [ none ↦ ok env | some ss ↦ serialize_sets values ss env ])
      on_serializers none k = ok-Safe env
      on_serializers (some ss) k = serialize_sets-Safe ss env k

found_string-Safe :
    (v : Variable) (env : Env) (o : Option String) → Safe (apply_found_string v env o)
unfolding apply_found_string
found_string-Safe v env none = ok-Safe env
found_string-Safe v env (some s) = ok-Safe _

found_set-Safe :
    (v : Variable) (env : Env) (o : Option (List String))
    → joins_have_settings v ≡ true
    → Safe (apply_found_set v env o)
unfolding apply_found_set
found_set-Safe v env none h = ok-Safe env
found_set-Safe v env (some values) h = apply_set-Safe values v env h

module _ (values : Values) where
  open values use {
    get_set_as_string_slice, get_string, get_map_as_string, get_or_create_meta_priority_list,
    get_or_create_meta_hash_set,
  }

  -- No read of the store panics.
  pub record IsReliable : Type 0 where
    pub set_read : (k : String) → get_set_as_string_slice k ≢ panic
    pub string_read : (k : String) → get_string k ≢ panic
    pub map_read : (k : String) → get_map_as_string k ≢ panic
    pub list_read :
        (k : String) (refs : Option (List String)) → get_or_create_meta_priority_list k refs ≢ panic
    pub hash_read : (k ref0 ref1 : String) → get_or_create_meta_hash_set k ref0 ref1 ≢ panic

  module _ (reliable : IsReliable) where
    open reliable use {set_read, string_read, map_read, list_read, hash_read}

    plain-Safe : (v : Variable) (env : Env) → Safe (plain_string values v env)
    unfolding plain_string
    plain-Safe v env = then_Safe _ _ (string_read v.key) (λ o. found_string-Safe v env o)

    computed-Safe :
        (d : VariableDataType) (v : Variable) (env : Env)
        → joins_have_settings v ≡ true
        → Safe (computed_value values d v env)
    unfolding computed_value
    computed-Safe set_of v env h = then_Safe _ _ (set_read v.key) (λ o. apply_set-Safe o v env h)
    computed-Safe string v env h = plain-Safe v env
    computed-Safe int v env h = plain-Safe v env
    computed-Safe boolean v env h = plain-Safe v env
    computed-Safe float v env h = plain-Safe v env
    computed-Safe map_of v env h = then_Safe _ _ (map_read v.key) (λ o. ok-Safe _)
    computed-Safe meta_hash_set v env h = ok-Safe env
    computed-Safe meta_priority_list v env h = ok-Safe env
    computed-Safe (other_data_type s) v env h = ok-Safe env

    hash-Safe :
        (v : Variable) (env : Env) (o : Option (List String))
        → eqb (length (refs_of o)) 2 ≡ true
        → Safe (hash_set_value values v env o)
    unfolding hash_set_value
    hash-Safe v env none h = cc
    hash-Safe v env (some []) h = cc
    hash-Safe v env (some (r ∷ [])) h = cc
    hash-Safe v env (some (r ∷ q ∷ rs)) h =
        then_Safe _ _ (hash_read v.key r q) (λ o. found_string-Safe v env o)

    meta-Safe :
        (d : VariableDataType) (v : Variable) (env : Env)
        → joins_have_settings v ≡ true
        → has_sound_refs meta d (refs_of v.variable_refs) ≡ true
        → Safe (meta_value values d v env)
    unfolding meta_value
    meta-Safe meta_priority_list v env h k =
        then_Safe _ _ (list_read v.key v.variable_refs) (λ o. found_set-Safe v env o h)
    meta-Safe meta_hash_set v env h k = hash-Safe v env v.variable_refs k
    meta-Safe set_of v env h k = ok-Safe env
    meta-Safe string v env h k = ok-Safe env
    meta-Safe int v env h k = ok-Safe env
    meta-Safe boolean v env h k = ok-Safe env
    meta-Safe float v env h k = ok-Safe env
    meta-Safe map_of v env h k = ok-Safe env
    meta-Safe (other_data_type s) v env h k = ok-Safe env

    sync_type-Safe :
        (t : VariableType) (v : Variable) (s : Synced)
        → joins_have_settings v ≡ true
        → has_sound_refs t v.data_type (refs_of v.variable_refs) ≡ true
        → Safe (sync_type values t v s)
    unfolding sync_type handle_computed_variable handle_meta_variable
    sync_type-Safe manual v s h k =
        then_Safe _ _ (computed-Safe v.data_type v s.env h) (λ env. ok-Safe _)
    sync_type-Safe computed v s h k =
        then_Safe _ _ (computed-Safe v.data_type v s.env h) (λ env. ok-Safe _)
    sync_type-Safe meta v s h k =
        then_Safe _ _ (meta-Safe v.data_type v s.env h k) (λ env. ok-Safe _)
    sync_type-Safe (other_type t) v s h k = ok-Safe s

    refs-is_sound :
        (v : Variable)
        → is_sound v ≡ true
        → has_sound_refs v.type v.data_type (refs_of v.variable_refs) ≡ true
    refs-is_sound v k =
        let q : (has_sound_refs v.type v.data_type (refs_of v.variable_refs)
              && all (may_export v.data_type) (exports_of v.serialize_as))
            ≡ true =
          (and-eq-true (is_stored v.storage_type) _ k).1 in
        (and-eq-true (has_sound_refs v.type v.data_type (refs_of v.variable_refs)) _ q).0

    sync_variable-Safe :
        (v : Variable) (s : Synced)
        → joins_have_settings v ≡ true
        → is_sound v ≡ true
        → Safe (sync_variable values v s)
    unfolding sync_variable
    sync_variable-Safe v s h k =
        stored v.storage_type (sync_type-Safe v.type v _ h (refs-is_sound v k))
      where
        stored :
            (t : VariableStorageType)
            → Safe (sync_type values v.type v (record s { keys_to_keep = v.key ∷ s.keys_to_keep }))
            → Safe (elim t [
              | mdai_valkey ↦
                  sync_type values v.type v (record s { keys_to_keep = v.key ∷ s.keys_to_keep })
              | other_storage t ↦ ok s
            ])
        stored mdai_valkey q = q
        stored (other_storage u) q = ok-Safe s

    sync_all-Safe :
        (vs : List Variable) (s : Synced)
        → all joins_have_settings vs ≡ true
        → all is_sound vs ≡ true
        → Safe (sync_valkey_variables values vs s)
    unfolding sync_valkey_variables
    sync_all-Safe [] s h k = ok-Safe s
    sync_all-Safe (v ∷ vs) s h k =
        let (h0, h1) = and-eq-true _ _ h in
        let (k0, k1) = and-eq-true _ _ k in
        then_Safe _ _ (sync_variable-Safe v s h0 k0) (λ t. sync_all-Safe vs t h1 k1)

    -- If no read of the store panics and every join has its settings, then syncing well-formed
    -- variables does not panic.
    pub sync-safe :
        (vs : List Variable) (s : Synced)
        → all joins_have_settings vs ≡ true
        → is_well_formed vs ≡ true
        → sync_valkey_variables values vs s ≢ panic
    sync-safe vs s h k = sync_all-Safe vs s h (and-eq-true _ _ k).0
