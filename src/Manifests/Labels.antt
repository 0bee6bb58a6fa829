-- ===== src/Manifests/Labels.antt =====
-- internal/manifests/manifestutils/labels.go. Values are lists of bytes; `is_filtered` is
-- IsFilteredSet, whose patterns are regular expressions.
use mdai_operator.Prelude.{
  ℕ, List, [], ◌∷◌, String, Option, none, some, Bool, Dict, lookup, insert, codes, eqb, same_text,
  if◌then◌else◌,
}
use mdai_operator.Naming.Truncate.{fixed, text, truncate}

-- strings.Split(image, ":"): the part in front and the parts that follow it.
unfoldable pub split_colons : List ℕ → List ℕ × List (List ℕ)
split_colons [] = ([], [])
split_colons (c ∷ s) =
    let (part, parts) = split_colons s in
    if eqb c b':' then ([], part ∷ parts) else (c ∷ part, parts)

-- strings.TrimSuffix(v, "@sha256") where strings.HasSuffix(v, "@sha256").
unfoldable pub trim_digest : List ℕ → Option (List ℕ)
unfolding same_text
trim_digest [] = none
trim_digest (c ∷ v) =
    let rest = trim_digest v in
    if same_text (c ∷ v) (codes "@sha256")
    then some []
    else elim rest [ none ↦ none | some s ↦ some (c ∷ s) ]

-- The loop over the parts: the last one with a digest wins.
unfoldable pub version_label : List ℕ → List (List ℕ) → List ℕ
unfolding trim_digest
version_label found [] = found
version_label found (v ∷ vs) = version_label (elim (trim_digest v) [ none ↦ found | some s ↦ s ]) vs

-- By the number of parts.
unfoldable pub version_of : List ℕ → List (List ℕ) → List ℕ
unfolding version_label truncate
version_of a [] = codes "latest"
version_of a (b ∷ []) = truncate 63 (text b ∷ [])
version_of a (b ∷ c ∷ []) = version_label [] (a ∷ b ∷ c ∷ [])
version_of a (b ∷ c ∷ d ∷ parts) = codes "latest"

unfoldable pub image_version : List ℕ → List ℕ
unfolding split_colons version_of
image_version image = let (a, parts) = split_colons image in version_of a parts

-- A name that is there is kept.
unfoldable pub with_app_name : List ℕ → Dict (List ℕ) → Dict (List ℕ)
unfolding lookup insert
with_app_name name base = elim (lookup "app.kubernetes.io/name" base) [
  | none ↦ insert "app.kubernetes.io/name" name base
  | some other ↦ base
]

module _ (is_filtered : String → Bool) where
  -- The loop over the labels of the instance.
  unfoldable pub copy_labels : Dict (List ℕ) → Dict (List ℕ) → Dict (List ℕ)
  unfolding insert
  copy_labels [] base = base
  copy_labels (l ∷ ls) base = copy_labels ls (if is_filtered l.0 then base else insert l.0 l.1 base)

  unfoldable pub labels_of : Option (Dict (List ℕ)) → (name image : List ℕ) → Dict (List ℕ)
  unfolding copy_labels insert image_version with_app_name
  labels_of instance_labels name image =
      let base = ("app.kubernetes.io/managed-by", codes "mdai-operator") ∷ [] in
      let copied : Dict (List ℕ) = elim instance_labels [
        | none ↦ base
        | some ls ↦ copy_labels ls base
      ] in
      with_app_name name (insert "app.kubernetes.io/version" (image_version image) copied)

-- SelectorLabels
unfoldable pub selector_labels : (namespace name component : List ℕ) → Dict (List ℕ)
unfolding truncate
selector_labels namespace name component =
    ("app.kubernetes.io/managed-by", codes "opentelemetry-operator")
    ∷ (
      "app.kubernetes.io/instance",
      truncate 63 (text namespace ∷ fixed (codes ".") ∷ text name ∷ []),
    )
    ∷ ("app.kubernetes.io/component", component)
    ∷ []
