-- ===== src/Manifests/Mutation.antt =====
-- internal/manifests/mutate.go: MutateFuncFor on services and ingresses, the objects that the ingress
-- controller makes. mergo.Merge with mergo.WithOverride is a parameter: it merges the second map over
-- the first one, or fails.
use mdai_operator.Prelude.{◌≡◌, refl, String, List, Option, Dict, is_nil, if◌then◌else◌}

abbrev pub StringMap : Type 0
StringMap = Option (Dict String)

-- What both kinds of object have.
pub record Meta : Type 0 where
  pub labels : StringMap
  pub annotations : StringMap
  pub owner_references : List String

pub record ServiceObject (Port : Type 0) : Type 0 where
  pub meta : Meta
  pub type : String
  pub ports : List Port
  pub selector : StringMap

pub record IngressObject (Rule : Type 0) : Type 0 where
  pub meta : Meta
  pub default_backend : Option String
  pub rules : List Rule
  pub tls : List String
  pub ingress_class_name : Option String

-- `other_object` stands for every other type.
pub data ManagedObject (Port Rule : Type 0) : Type 0 where
  service_object : ServiceObject Port → ManagedObject Port Rule
  ingress_object : IngressObject Rule → ManagedObject Port Rule
  other_object : Meta → ManagedObject Port Rule

pub data MutateError : Type 0 where
  merge_failed : String → MutateError
  wrong_type missing_implementation : MutateError

pub data Mutated (Port Rule : Type 0) : Type 0 where
  mutated : ManagedObject Port Rule → Mutated Port Rule
  mutate_failed : MutateError → Mutated Port Rule

pub data Merged : Type 0 where
  merged : StringMap → Merged
  not_merged : String → Merged

pub data MetaResult : Type 0 where
  meta_done : Meta → MetaResult
  meta_failed : MutateError → MetaResult

module _ (merge : StringMap → StringMap → Merged) where
  unfoldable pub set_owners : (existing desired : Meta) → Meta
  set_owners existing desired =
      if is_nil desired.owner_references
      then existing
      else record existing { owner_references = desired.owner_references }

  -- Annotations first, then labels, then the owners.
  unfoldable pub merge_meta : (existing desired : Meta) → MetaResult
  unfolding set_owners
  merge_meta existing desired = elim (merge existing.annotations desired.annotations) [
    | not_merged e ↦ meta_failed (merge_failed e)
    | merged annotations ↦ elim (merge existing.labels desired.labels) [
      | not_merged e ↦ meta_failed (merge_failed e)
      | merged labels ↦
          meta_done
            (set_owners (record existing { annotations = annotations; labels = labels }) desired)
    ]
  ]

unfoldable pub mutate_service :
    {Port : Type 0} (existing desired : ServiceObject Port) → ServiceObject Port
mutate_service existing desired = record existing {
  ports = desired.ports;
  selector = desired.selector;
}

-- The labels and annotations that were merged are replaced.
unfoldable pub mutate_ingress :
    {Rule : Type 0} (existing desired : IngressObject Rule) → IngressObject Rule
mutate_ingress existing desired = record existing {
  meta = record existing.meta {
    labels = desired.meta.labels;
    annotations = desired.meta.annotations;
  };
  default_backend = desired.default_backend;
  rules = desired.rules;
  tls = desired.tls;
}

module _ {Port Rule : Type 0} where
  unfoldable pub meta_of : ManagedObject Port Rule → Meta
  meta_of (service_object s) = s.meta
  meta_of (ingress_object i) = i.meta
  meta_of (other_object m) = m

  -- The switch on the type of the existing object, with the metadata that was set.
  unfoldable pub mutate_spec :
      Meta → (existing desired : ManagedObject Port Rule) → Mutated Port Rule
  unfolding mutate_service mutate_ingress
  mutate_spec m (service_object s) (service_object t) =
      mutated (service_object (mutate_service (record s { meta = m }) t))
  mutate_spec m (service_object s) (ingress_object t) = mutate_failed wrong_type
  mutate_spec m (service_object s) (other_object t) = mutate_failed wrong_type
  mutate_spec m (ingress_object s) (ingress_object t) =
      mutated (ingress_object (mutate_ingress (record s { meta = m }) t))
  mutate_spec m (ingress_object s) (service_object t) = mutate_failed wrong_type
  mutate_spec m (ingress_object s) (other_object t) = mutate_failed wrong_type
  mutate_spec m (other_object s) t = mutate_failed missing_implementation

  unfoldable pub mutate :
      (StringMap → StringMap → Merged)
      → (existing desired : ManagedObject Port Rule) → Mutated Port Rule
  unfolding merge_meta meta_of mutate_spec
  mutate merge existing desired = elim (merge_meta merge (meta_of existing) (meta_of desired)) [
    | meta_failed e ↦ mutate_failed e
    | meta_done m ↦ mutate_spec m existing desired
  ]

  -- The kind of the object and what the code decides of it.
  abbrev pub Follows : (existing desired result : ManagedObject Port Rule) → Type 0
  Follows (service_object s) (service_object t) (service_object r) =
      (r.ports ≡ t.ports) × ((r.selector ≡ t.selector) × (r.type ≡ s.type))
  Follows (ingress_object s) (ingress_object t) (ingress_object r) =
      (r.rules ≡ t.rules)
      × ((r.meta.labels ≡ t.meta.labels)
          × ((r.meta.annotations ≡ t.meta.annotations)
              × (r.ingress_class_name ≡ s.ingress_class_name)))
  Follows _ _ _ = ⊥

  Follows-mutate_spec :
      (m : Meta) (existing desired result : ManagedObject Port Rule)
      → mutate_spec m existing desired ≡ mutated result
      → Follows existing desired result
  unfolding mutate_spec mutate_service mutate_ingress
  Follows-mutate_spec m (service_object s) (service_object t) (service_object r) h =
      let e : mutate_service (record s { meta = m }) t ≡ r = cc in rw (← e) (refl, (refl, refl))
  Follows-mutate_spec m (service_object s) (service_object t) (ingress_object r) h = cc
  Follows-mutate_spec m (service_object s) (service_object t) (other_object r) h = cc
  Follows-mutate_spec m (service_object s) (ingress_object t) r h = cc
  Follows-mutate_spec m (service_object s) (other_object t) r h = cc
  Follows-mutate_spec m (ingress_object s) (service_object t) r h = cc
  Follows-mutate_spec m (ingress_object s) (ingress_object t) (service_object r) h = cc
  Follows-mutate_spec m (ingress_object s) (ingress_object t) (ingress_object r) h =
      let e : mutate_ingress (record s { meta = m }) t ≡ r = cc in
      rw (← e) (refl, (refl, (refl, refl)))
  Follows-mutate_spec m (ingress_object s) (ingress_object t) (other_object r) h = cc
  Follows-mutate_spec m (ingress_object s) (other_object t) r h = cc
  Follows-mutate_spec m (other_object s) t r h = cc

  -- However maps are merged: if the function succeeds on an existing and a desired object, both are
  -- services or both are ingresses. A service gets the desired ports and selector and keeps its
  -- type. An ingress gets the desired rules, and the desired labels and annotations in place of the
  -- merged ones, and keeps its class.
  pub mutate-Follows :
      (merge : StringMap → StringMap → Merged) (existing desired result : ManagedObject Port Rule)
      → mutate merge existing desired ≡ mutated result
      → Follows existing desired result
  unfolding mutate
  mutate-Follows merge existing desired result h =
      by_meta (merge_meta merge (meta_of existing) (meta_of desired)) h
    where
      by_meta :
          (m : MetaResult)
          → elim m [
            | meta_failed e ↦ mutate_failed e
            | meta_done m ↦ mutate_spec m existing desired
          ]
            ≡ mutated result
          → Follows existing desired result
      by_meta (meta_failed e) k = cc
      by_meta (meta_done m) k = Follows-mutate_spec m existing desired result k
