-- ===== src/Webhook/Hub/Variables.antt =====
-- `validateVariables` of internal/webhook/v1/mdaihub_webhook.go. The two Go maps that collect the
-- keys and the exported names are lists of what has been seen.
pub mod WellFormed
pub mod Accepted
use Prim.Native.String
use mdai_operator.Prelude.{
  ℕ, suc, String, List, [], ◌∷◌, ◌++◌, Option, none, some, Bool, true, false, ◌==◌, member, length,
  eqb, not, if◌then◌else◌,
}
use mdai_operator.Field.{
  FieldPath, root, child, index, BadValue, quoted, quoted_all, FieldError, required, invalid,
  not_supported, forbidden, duplicate,
}
use mdai_operator.Api.{
  Variable, Serializer, VariableTransformer, VariableType, manual, computed, meta, other_type,
  VariableDataType, int, float, boolean, string, set_of, map_of, meta_hash_set, meta_priority_list,
  other_data_type, VariableStorageType, mdai_valkey, other_storage,
}

-- A nil slice has no elements.
abbrev pub elements : Option (List String) → List String
elements none = []
elements (some refs) = refs

unfoldable pub is_meta : VariableType → Bool
is_meta meta = true
is_meta _ = false

-- The text of a storage type.
storage_name : VariableStorageType → String
storage_name mdai_valkey = "mdai-valkey"
storage_name (other_storage s) = s

storage_errors : FieldPath → VariableStorageType → List FieldError
unfolding storage_name
storage_errors at mdai_valkey = []
storage_errors at (other_storage s) =
    not_supported (child at "storageType") s ("mdai-valkey" ∷ []) ∷ []

key_errors : FieldPath → String → List String → List FieldError
key_errors at key seen = if member key seen then duplicate (child at "key") key ∷ [] else []

required_refs_errors : FieldPath → List String → List FieldError
required_refs_errors at [] = required (child at "variableRefs") "required for meta variable" ∷ []
required_refs_errors at (r ∷ rs) = []

hash_set_errors : FieldPath → VariableDataType → List String → List FieldError
hash_set_errors at meta_hash_set refs =
    if eqb (length refs) 2
    then []
    else invalid (child at "variableRefs") (quoted_all refs)
        "Meta HashSet must have exactly 2 elements"
      ∷ []
hash_set_errors at _ refs = []

other_refs_errors : FieldPath → List String → List FieldError
other_refs_errors at [] = []
other_refs_errors at (r ∷ rs) =
    forbidden (child at "variableRefs") "not supported for non-meta variables" ∷ []

refs_errors : FieldPath → VariableType → VariableDataType → List String → List FieldError
unfolding is_meta required_refs_errors hash_set_errors other_refs_errors
refs_errors at type data_type refs =
    if is_meta type
    then required_refs_errors at refs ++ hash_set_errors at data_type refs
    else other_refs_errors at refs

name_errors : FieldPath → String → List String → List FieldError
name_errors at name exported =
    if member name exported then duplicate (child at "name") name ∷ [] else []

unfoldable data_type_text : VariableDataType → String
data_type_text int = "int"
data_type_text float = "float"
data_type_text boolean = "boolean"
data_type_text string = "string"
data_type_text set_of = "set"
data_type_text map_of = "map"
data_type_text meta_hash_set = "metaHashSet"
data_type_text meta_priority_list = "metaPriorityList"
data_type_text (other_data_type s) = s

unsupported_transformers : FieldPath → VariableDataType → List VariableTransformer → List FieldError
unfolding data_type_text
unsupported_transformers at t [] = []
unsupported_transformers at t (_ ∷ _) =
    forbidden (child at "transformers")
      (String.◌++◌ "transformers are not supported for variable type " (data_type_text t))
    ∷ []

-- The `switch` on the data type, at the variable's path and the serializer's path.
data_type_errors :
    FieldPath → FieldPath → VariableDataType → List VariableTransformer → List FieldError
unfolding unsupported_transformers
data_type_errors var_index at set_of ts = []
data_type_errors var_index at meta_priority_list ts = []
data_type_errors var_index at string ts = unsupported_transformers at string ts
data_type_errors var_index at float ts = unsupported_transformers at float ts
data_type_errors var_index at int ts = unsupported_transformers at int ts
data_type_errors var_index at boolean ts = unsupported_transformers at boolean ts
data_type_errors var_index at map_of ts = unsupported_transformers at map_of ts
data_type_errors var_index at meta_hash_set ts = unsupported_transformers at meta_hash_set ts
data_type_errors var_index at (other_data_type s) ts =
    invalid (child var_index "dataType") (quoted s) "unsupported variable type" ∷ []

-- `exportedVariableNames` after one name.
mark : String → List String → List String
mark name seen = if member name seen then seen else name ∷ seen

-- The loop over `SerializeAs`, from index `j`; it returns the names exported so far too.
serializer_errors :
    FieldPath → VariableDataType → ℕ → List String → List Serializer → List FieldError × List String
unfolding name_errors data_type_errors mark
serializer_errors var_index data_type j exported [] = ([], exported)
serializer_errors var_index data_type j exported (with_ ∷ rest) =
    let at = index (child var_index "serializeAs") j in
    let (errors, final) =
      serializer_errors var_index data_type (suc j) (mark with_.name exported) rest in
    (
      name_errors at with_.name exported
          ++ (data_type_errors var_index at data_type with_.transformers ++ errors),
      final,
    )

abbrev pub serializers : Option (List Serializer) → List Serializer
serializers none = []
serializers (some ss) = ss

-- The loop over the variables, from index `i`.
variable_errors : ℕ → List String → List String → List Variable → List FieldError
unfolding storage_errors key_errors refs_errors serializer_errors mark
variable_errors i keys exported [] = []
variable_errors i keys exported (v ∷ vs) =
    let at = index (child (root "spec") "variables") i in
    let (errors, exported') =
      serializer_errors at v.data_type 0 exported (serializers v.serialize_as) in
    storage_errors at v.storage_type
    ++ (key_errors at v.key keys
        ++ (refs_errors at v.type v.data_type (elements v.variable_refs)
            ++ (errors ++ variable_errors (suc i) (mark v.key keys) exported' vs)))

-- The warnings and the errors.
unfoldable pub validate_variables : List Variable → List String × List FieldError
unfolding variable_errors
validate_variables [] = ("variables are not specified" ∷ [], [])
validate_variables (v ∷ vs) = ([], variable_errors 0 [] [] (v ∷ vs))
