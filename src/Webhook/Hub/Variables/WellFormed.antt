-- ===== src/Webhook/Hub/Variables/WellFormed.antt =====
-- What the variables of a hub are to be like, after the comments of api/v1/mdaihub_types.go and
-- without regard to the order in which internal/webhook/v1/mdaihub_webhook.go looks at them.
use mdai_operator.Prelude.{
  String, List, [], ◌∷◌, ◌++◌, Option, none, some, Bool, true, false, not, ◌&&◌, member, length,
  eqb, is_nil, all,
}
use mdai_operator.Api.{
  Variable, Serializer, VariableType, meta, VariableDataType, set_of, meta_hash_set,
  meta_priority_list, other_data_type, VariableStorageType, mdai_valkey, other_storage,
}

abbrev pub distinct : List String → Bool
distinct [] = true
distinct (s ∷ ss) = not (member s ss) && distinct ss

abbrev pub disjoint : List String → List String → Bool
disjoint seen [] = true
disjoint seen (s ∷ ss) = not (member s seen) && disjoint seen ss

abbrev pub is_stored : VariableStorageType → Bool
is_stored mdai_valkey = true
is_stored (other_storage s) = false

-- A meta variable has references, exactly two for a hash set; another variable has none.
abbrev pub has_sound_refs : VariableType → VariableDataType → List String → Bool
has_sound_refs meta meta_hash_set refs = eqb (length refs) 2
has_sound_refs meta _ refs = not (is_nil refs)
has_sound_refs _ _ refs = is_nil refs

-- Only a set and a priority list may be transformed, and nothing is exported of an unknown type.
abbrev pub may_export : VariableDataType → Serializer → Bool
may_export set_of s = true
may_export meta_priority_list s = true
may_export (other_data_type t) s = false
may_export _ s = is_nil s.transformers

abbrev pub refs_of : Option (List String) → List String
refs_of none = []
refs_of (some refs) = refs

abbrev pub exports_of : Option (List Serializer) → List Serializer
exports_of none = []
exports_of (some ss) = ss

abbrev pub is_sound : Variable → Bool
is_sound v =
    is_stored v.storage_type
    && (has_sound_refs v.type v.data_type (refs_of v.variable_refs)
        && all (may_export v.data_type) (exports_of v.serialize_as))

abbrev pub names : List Serializer → List String
names [] = []
names (s ∷ ss) = s.name ∷ names ss

abbrev pub keys : List Variable → List String
keys [] = []
keys (v ∷ vs) = v.key ∷ keys vs

abbrev pub exported_names : List Variable → List String
exported_names [] = []
exported_names (v ∷ vs) = names (exports_of v.serialize_as) ++ exported_names vs

-- Each variable is sound, and neither a key nor an exported name occurs twice.
abbrev pub is_well_formed : List Variable → Bool
is_well_formed vs = all is_sound vs && (distinct (keys vs) && distinct (exported_names vs))
