-- ===== src/Controller/Hub/Env.antt =====
-- The environment that internal/controller/hub_adapter.go computes from the variables:
-- applySerializerToString, applySetTransformation, handleComputedVariable, handleMetaVariable and
-- syncValkeyVariables.
pub mod Panics
use Prim.Native.String
use mdai_operator.Prelude.{
  String, List, [], ◌∷◌, Option, none, some, Bool, true, false, Dict, lookup, insert, if◌then◌else◌,
}
use mdai_operator.Api.{
  Variable, Serializer, VariableTransformer, TransformerType, join, other_transformer,
  JoinTransformer, VariableType, manual, computed, meta, other_type, VariableDataType, int, float,
  boolean, string, set_of, map_of, meta_hash_set, meta_priority_list, other_data_type,
  VariableStorageType, mdai_valkey, other_storage,
}
use mdai_operator.Controller.Hub.Values.{Attempt, ok, err, panic, ◌>>=◌, Values}

abbrev pub Env : Type 0
Env = Dict String

abbrev pub has_name : {A : Type 0} → Option A → Bool
has_name none = false
has_name (some a) = true

-- strings.Join
join_from : String → List String → String → String
join_from first [] delimiter = first
join_from first (s ∷ ss) delimiter =
    String.◌++◌ first (String.◌++◌ delimiter (join_from s ss delimiter))

unfoldable pub join_texts : List String → String → String
unfolding join_from
join_texts [] delimiter = ""
join_texts (s ∷ ss) delimiter = join_from s ss delimiter

serialize_string : List Serializer → String → Env → Env
unfolding insert
serialize_string [] value env = env
serialize_string (s ∷ ss) value env = serialize_string ss value (insert s.name value env)

unfoldable pub apply_serializer_to_string : Variable → Env → String → Env
unfolding serialize_string
apply_serializer_to_string v env value = elim v.serialize_as [
  | none ↦ env
  | some ss ↦ serialize_string ss value env
]

-- One transformer, for the exported name; a join without its settings is a nil dereference.
transform : String → List String → VariableTransformer → Env → Attempt Env
unfolding insert join_texts
transform name values t env = elim t.type [
  | join ↦ elim t.join [
    | some j ↦ ok (insert name (join_texts values j.delimiter) env)
    | none ↦ panic
  ]
  | other_transformer s ↦ ok env
]

transform_all : String → List String → List VariableTransformer → Env → Attempt Env
unfolding transform
transform_all name values [] env = ok env
transform_all name values (t ∷ ts) env =
    transform name values t env >>= transform_all name values ts

-- One serializer: a name that is exported already is left alone.
serialize_set : List String → Serializer → Env → Attempt Env
unfolding transform_all lookup
serialize_set values s env =
    if has_name (lookup s.name env) then ok env else transform_all s.name values s.transformers env

serialize_sets : List String → List Serializer → Env → Attempt Env
unfolding serialize_set
serialize_sets values [] env = ok env
serialize_sets values (s ∷ ss) env = serialize_set values s env >>= serialize_sets values ss

unfoldable pub apply_set_transformation : Variable → Env → List String → Attempt Env
unfolding serialize_sets
apply_set_transformation v env values = elim v.serialize_as [
  | none ↦ ok env
  | some ss ↦ serialize_sets values ss env
]

-- Where a value may be missing.
apply_found_string : Variable → Env → Option String → Attempt Env
unfolding apply_serializer_to_string
apply_found_string v env none = ok env
apply_found_string v env (some value) = ok (apply_serializer_to_string v env value)

apply_found_set : Variable → Env → Option (List String) → Attempt Env
unfolding apply_set_transformation
apply_found_set v env none = ok env
apply_found_set v env (some values) = apply_set_transformation v env values

-- The three maps that syncValkeyVariables fills: the environment, the types of the manual variables,
-- and the keys to keep.
pub record Synced : Type 0 where
  pub env : Env
  pub manual_env : Env
  pub keys_to_keep : List String

-- The text of a data type.
data_type_name : VariableDataType → String
data_type_name int = "int"
data_type_name float = "float"
data_type_name boolean = "boolean"
data_type_name string = "string"
data_type_name set_of = "set"
data_type_name map_of = "map"
data_type_name meta_hash_set = "metaHashSet"
data_type_name meta_priority_list = "metaPriorityList"
data_type_name (other_data_type s) = s

module _ (values : Values) where
  open values use {
    get_set_as_string_slice, get_string, get_map_as_string, get_or_create_meta_priority_list,
    get_or_create_meta_hash_set,
  }

  plain_string : Variable → Env → Attempt Env
  unfolding apply_found_string
  plain_string v env = get_string v.key >>= apply_found_string v env

  computed_value : VariableDataType → Variable → Env → Attempt Env
  unfolding plain_string apply_set_transformation apply_serializer_to_string
  computed_value set_of v env = get_set_as_string_slice v.key >>= apply_set_transformation v env
  computed_value string v env = plain_string v env
  computed_value int v env = plain_string v env
  computed_value boolean v env = plain_string v env
  computed_value float v env = plain_string v env
  computed_value map_of v env =
      get_map_as_string v.key >>= λ value. ok (apply_serializer_to_string v env value)
  computed_value meta_hash_set v env = ok env
  computed_value meta_priority_list v env = ok env
  computed_value (other_data_type s) v env = ok env

  unfoldable pub handle_computed_variable : Variable → Env → Attempt Env
  unfolding computed_value
  handle_computed_variable v env = computed_value v.data_type v env

  -- `VariableRefs[0]` and `VariableRefs[1]`: an index out of range panics.
  hash_set_value : Variable → Env → Option (List String) → Attempt Env
  unfolding apply_found_string
  hash_set_value v env (some (ref0 ∷ ref1 ∷ refs)) =
      get_or_create_meta_hash_set v.key ref0 ref1 >>= apply_found_string v env
  hash_set_value v env _ = panic

  meta_value : VariableDataType → Variable → Env → Attempt Env
  unfolding apply_found_set hash_set_value
  meta_value meta_priority_list v env =
      get_or_create_meta_priority_list v.key v.variable_refs >>= apply_found_set v env
  meta_value meta_hash_set v env = hash_set_value v env v.variable_refs
  meta_value _ v env = ok env

  unfoldable pub handle_meta_variable : Variable → Env → Attempt Env
  unfolding meta_value
  handle_meta_variable v env = meta_value v.data_type v env

  -- The `switch` on the variable's type, for a variable whose key is kept.
  sync_type : VariableType → Variable → Synced → Attempt Synced
  unfolding handle_computed_variable handle_meta_variable data_type_name insert
  sync_type manual v s = handle_computed_variable v s.env >>= λ env.
      ok (record s {
        env = env;
        manual_env = insert v.key (data_type_name v.data_type) s.manual_env;
      })
  sync_type computed v s = handle_computed_variable v s.env >>= λ env. ok (record s { env = env })
  sync_type meta v s = handle_meta_variable v s.env >>= λ env. ok (record s { env = env })
  sync_type (other_type t) v s = ok s

  -- One round of the loop: another storage type is skipped.
  sync_variable : Variable → Synced → Attempt Synced
  unfolding sync_type
  sync_variable v s = elim v.storage_type [
    | mdai_valkey ↦ sync_type v.type v (record s { keys_to_keep = v.key ∷ s.keys_to_keep })
    | other_storage t ↦ ok s
  ]

  unfoldable pub sync_valkey_variables : List Variable → Synced → Attempt Synced
  unfolding sync_variable
  sync_valkey_variables [] s = ok s
  sync_valkey_variables (v ∷ vs) s = sync_variable v s >>= sync_valkey_variables vs
