-- ===== src/Webhook/Hub/Variables/Accepted.antt =====
-- `validateVariables` finds no error exactly in well-formed variables.
use mdai_operator.Prelude.{
  ℕ, suc, ◌≡◌, refl, ◌∙◌, String, List, [], ◌∷◌, ◌++◌, true, not, ◌&&◌, ◌||◌, ◌==◌, eq_iff, member,
  is_nil, is_nil-append, all, arith,
}
use mdai_operator.Field.{FieldPath, root, child, index, FieldError}
use mdai_operator.Api.{
  Variable, Serializer, VariableTransformer, VariableType, manual, computed, meta, other_type,
  VariableDataType, int, float, boolean, string, set_of, map_of, meta_hash_set, meta_priority_list,
  other_data_type, VariableStorageType, mdai_valkey, other_storage,
}
use mdai_operator.Webhook.Hub.Variables.{
  storage_errors, key_errors, refs_errors, name_errors, data_type_errors, mark, serializer_errors,
  variable_errors, validate_variables, is_meta, required_refs_errors, hash_set_errors,
  other_refs_errors, unsupported_transformers,
}
use mdai_operator.Webhook.Hub.Variables.WellFormed.{
  distinct, disjoint, is_stored, has_sound_refs, may_export, refs_of, exports_of, is_sound, names,
  keys, exported_names, is_well_formed,
}

member-append :
    (x : String) (ss ts : List String) → member x (ss ++ ts) ≡ member x ss || member x ts
unfolding member
member-append x [] ts = refl
member-append x (s ∷ ss) ts = ground (arith, member-append x ss ts)

member-mark :
    (x s : String) (seen : List String) → member x (mark s seen) ≡ (s == x || member x seen)
unfolding mark member
member-mark x s seen = ground (arith, eq_iff s x)

disjoint-mark :
    (s : String) (seen ss : List String)
    → disjoint (mark s seen) ss ≡ not (member s ss) && disjoint seen ss
unfolding member
disjoint-mark s seen [] = refl
disjoint-mark s seen (t ∷ ss) =
    ground (arith, member-mark t s seen, disjoint-mark s seen ss, eq_iff s t, eq_iff t s)

-- What the loop over the serializers leaves as exported.
member-exported :
    (x : String) (at : FieldPath) (d : VariableDataType) (j : ℕ) (seen : List String)
    (ss : List Serializer)
    → member x (serializer_errors at d j seen ss).1 ≡ member x (names ss) || member x seen
unfolding serializer_errors member
member-exported x at d j seen [] = refl
member-exported x at d j seen (s ∷ ss) =
    ground (arith, member-exported x at d (suc j) (mark s.name seen) ss, member-mark x s.name seen)

disjoint-exported :
    (at : FieldPath) (d : VariableDataType) (j : ℕ) (seen : List String) (ss : List Serializer)
    (ts : List String)
    → disjoint (serializer_errors at d j seen ss).1 ts ≡ disjoint (names ss) ts && disjoint seen ts
disjoint-exported at d j seen ss [] = refl
disjoint-exported at d j seen ss (t ∷ ts) =
    ground (arith, member-exported t at d j seen ss, disjoint-exported at d j seen ss ts)

disjoint-append :
    (seen ss ts : List String) → disjoint seen (ss ++ ts) ≡ disjoint seen ss && disjoint seen ts
disjoint-append seen [] ts = refl
disjoint-append seen (s ∷ ss) ts = ground (arith, disjoint-append seen ss ts)

disjoint-cons :
    (s : String) (ss ts : List String) → disjoint (s ∷ ss) ts ≡ not (member s ts) && disjoint ss ts
unfolding member
disjoint-cons s ss [] = refl
disjoint-cons s ss (t ∷ ts) = ground (arith, disjoint-cons s ss ts, eq_iff s t, eq_iff t s)

disjoint-nil : (ts : List String) → disjoint [] ts ≡ true
unfolding member
disjoint-nil [] = refl
disjoint-nil (t ∷ ts) = disjoint-nil ts

distinct-append :
    (ss ts : List String) → distinct (ss ++ ts) ≡ distinct ss && (distinct ts && disjoint ss ts)
distinct-append [] ts = ground (arith, disjoint-nil ts)
distinct-append (s ∷ ss) ts =
    ground (arith, distinct-append ss ts, member-append s ss ts, disjoint-cons s ss ts)

is_nil-unsupported :
    (at : FieldPath) (type : VariableDataType) (ts : List VariableTransformer)
    → is_nil (unsupported_transformers at type ts) ≡ is_nil ts
unfolding unsupported_transformers
is_nil-unsupported at type [] = refl
is_nil-unsupported at type (t ∷ ts) = refl

is_nil-five :
    (a b c d e : List FieldError)
    → is_nil (a ++ (b ++ (c ++ (d ++ e))))
      ≡ (is_nil a && (is_nil b && (is_nil c && (is_nil d && is_nil e))))
is_nil-five a b c d e = ground (
  arith,
  is_nil-append a (b ++ (c ++ (d ++ e))),
  is_nil-append b (c ++ (d ++ e)),
  is_nil-append c (d ++ e),
  is_nil-append d e,
)

-- The errors of one serializer, by the type of its variable.
is_nil-data_type :
    (var_at at : FieldPath) (d : VariableDataType) (s : Serializer)
    → is_nil (data_type_errors var_at at d s.transformers) ≡ may_export d s
unfolding data_type_errors
is_nil-data_type var_at at set_of s = refl
is_nil-data_type var_at at meta_priority_list s = refl
is_nil-data_type var_at at string s = is_nil-unsupported at string s.transformers
is_nil-data_type var_at at float s = is_nil-unsupported at float s.transformers
is_nil-data_type var_at at int s = is_nil-unsupported at int s.transformers
is_nil-data_type var_at at boolean s = is_nil-unsupported at boolean s.transformers
is_nil-data_type var_at at map_of s = is_nil-unsupported at map_of s.transformers
is_nil-data_type var_at at meta_hash_set s = is_nil-unsupported at meta_hash_set s.transformers
is_nil-data_type var_at at (other_data_type t) s = refl

is_nil-serializers :
    (at : FieldPath) (d : VariableDataType) (j : ℕ) (seen : List String) (ss : List Serializer)
    → is_nil (serializer_errors at d j seen ss).0
      ≡ (all (may_export d) ss && (distinct (names ss) && disjoint seen (names ss)))
unfolding serializer_errors name_errors
is_nil-serializers at d j seen [] = refl
is_nil-serializers at d j seen (s ∷ ss) =
    let here = index (child at "serializeAs") j in
    rw (is_nil-append (name_errors here s.name seen) _) (
      rw (is_nil-append (data_type_errors at here d s.transformers) _) (
        ground (
          arith,
          is_nil-data_type at here d s,
          is_nil-serializers at d (suc j) (mark s.name seen) ss,
          disjoint-mark s.name seen (names ss),
        )))

is_nil-refs :
    (at : FieldPath) (t : VariableType) (d : VariableDataType) (refs : List String)
    → is_nil (refs_errors at t d refs) ≡ has_sound_refs t d refs
unfolding refs_errors is_meta required_refs_errors hash_set_errors other_refs_errors
is_nil-refs at meta meta_hash_set [] = refl
is_nil-refs at meta meta_hash_set (r ∷ rs) = ground arith
is_nil-refs at meta int [] = refl
is_nil-refs at meta int (r ∷ rs) = refl
is_nil-refs at meta float [] = refl
is_nil-refs at meta float (r ∷ rs) = refl
is_nil-refs at meta boolean [] = refl
is_nil-refs at meta boolean (r ∷ rs) = refl
is_nil-refs at meta string [] = refl
is_nil-refs at meta string (r ∷ rs) = refl
is_nil-refs at meta set_of [] = refl
is_nil-refs at meta set_of (r ∷ rs) = refl
is_nil-refs at meta map_of [] = refl
is_nil-refs at meta map_of (r ∷ rs) = refl
is_nil-refs at meta meta_priority_list [] = refl
is_nil-refs at meta meta_priority_list (r ∷ rs) = refl
is_nil-refs at meta (other_data_type k) [] = refl
is_nil-refs at meta (other_data_type k) (r ∷ rs) = refl
is_nil-refs at manual d [] = refl
is_nil-refs at manual d (r ∷ rs) = refl
is_nil-refs at computed d [] = refl
is_nil-refs at computed d (r ∷ rs) = refl
is_nil-refs at (other_type u) d [] = refl
is_nil-refs at (other_type u) d (r ∷ rs) = refl

is_nil-storage :
    (at : FieldPath) (t : VariableStorageType) → is_nil (storage_errors at t) ≡ is_stored t
unfolding storage_errors
is_nil-storage at mdai_valkey = refl
is_nil-storage at (other_storage s) = refl

is_nil-key :
    (at : FieldPath) (k : String) (seen : List String)
    → is_nil (key_errors at k seen) ≡ not (member k seen)
unfolding key_errors
is_nil-key at k seen = ground arith

is_nil-variables :
    (i : ℕ) (seen exported : List String) (vs : List Variable)
    → is_nil (variable_errors i seen exported vs) ≡ (
        all is_sound vs
        && ((distinct (keys vs) && disjoint seen (keys vs))
            && (distinct (exported_names vs) && disjoint exported (exported_names vs))))
unfolding variable_errors
is_nil-variables i seen exported [] = refl
is_nil-variables i seen exported (v ∷ vs) =
    let at = index (child (root "spec") "variables") i in
    let ss = exports_of v.serialize_as in
    is_nil-five (storage_errors at v.storage_type) (key_errors at v.key seen)
      (refs_errors at v.type v.data_type (refs_of v.variable_refs))
      (serializer_errors at v.data_type 0 exported ss).0 _
    ∙ ground (
      arith,
      is_nil-storage at v.storage_type,
      is_nil-key at v.key seen,
      is_nil-refs at v.type v.data_type (refs_of v.variable_refs),
      is_nil-serializers at v.data_type 0 exported ss,
      is_nil-variables (suc i) (mark v.key seen) (serializer_errors at v.data_type 0 exported ss).1
          vs,
      disjoint-mark v.key seen (keys vs),
      disjoint-exported at v.data_type 0 exported ss (exported_names vs),
      distinct-append (names ss) (exported_names vs),
      disjoint-append exported (names ss) (exported_names vs),
    )

-- `validateVariables` reports no error exactly if every variable is sound and neither a key nor an
-- exported name occurs twice.
pub is_nil-validate_variables :
    (vs : List Variable) → is_nil (validate_variables vs).1 ≡ is_well_formed vs
unfolding validate_variables
is_nil-validate_variables [] = refl
is_nil-validate_variables (v ∷ vs) =
    is_nil-variables 0 [] [] (v ∷ vs)
    ∙ rw (disjoint-nil (keys (v ∷ vs))) (rw (disjoint-nil (exported_names (v ∷ vs))) (ground arith))
