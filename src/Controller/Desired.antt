-- ===== src/Controller/Desired.antt =====
-- reconcileDesiredObjects and deleteObjects of internal/controller/common.go, with which the ingress
-- controller brings the objects that it owns to the desired ones. The outcome of the retried
-- controllerutil.CreateOrUpdate, which is not part of the repository, is one answer: the object was
-- configured, it has an immutable field that differs, or another error; an object that was found is
-- named by its UID.
pub mod Pruning
use mdai_operator.Prelude.{
  String, List, [], ◌∷◌, ◌++◌, Option, none, some, Bool, true, false, not, ◌==◌, if◌then◌else◌,
}

-- `cluster_scoped` is `!isNamespaceScoped(obj)`: a ClusterRole or a ClusterRoleBinding.
pub record Desired : Type 0 where
  pub name : String
  pub cluster_scoped : Bool

pub data CrudAnswer : Type 0 where
  configured : (uid : String) → CrudAnswer
  immutable_change : (uid : String) → CrudAnswer
  refused : (error : String) → CrudAnswer

pub data ObjectRequest : Type 0 where
  configure_object : Desired → ObjectRequest
  delete_object : (uid : String) → ObjectRequest

abbrev pub Sent : Type 0
Sent = List ObjectRequest

pub record ObjectApi : Type 0 where
  -- ctrl.SetControllerReference
  pub owner_error : Desired → Option String
  pub on_configure : Sent → Desired → CrudAnswer
  pub on_delete : Sent → (uid : String) → Option String

pub data DesiredOutcome : Type 0 where
  reconciled : DesiredOutcome
  delete_failed : String → DesiredOutcome
  create_failed : List String → DesiredOutcome
  prune_failed : List String → DesiredOutcome

-- `errs`, `ownedObjects` and the requests sent so far, the last one first.
pub record Progress : Type 0 where
  pub errors : List String
  pub owned : List String
  pub sent : Sent

-- delete(ownedObjects, uid)
unfoldable pub drop_uid : String → List String → List String
drop_uid uid [] = []
drop_uid uid (u ∷ us) = let rest = drop_uid uid us in if u == uid then rest else u ∷ rest

unfoldable pub add_error : String → Progress → Progress
add_error e p = record p { errors = p.errors ++ e ∷ [] }

unfoldable pub owner_check : (Desired → Option String) → Desired → Option String
owner_check check d = if d.cluster_scoped then none else check d

module _ (api : ObjectApi) where
  open api use {owner_error, on_configure, on_delete}

  -- After CreateOrUpdate: the error of the deletion that ends the loop, if there is one.
  unfoldable pub after_configure : CrudAnswer → Progress → Option String × Progress
  unfolding drop_uid add_error
  after_configure (configured uid) p = (none, record p { owned = drop_uid uid p.owned })
  after_configure (refused e) p = (none, add_error e p)
  after_configure (immutable_change uid) p =
      (on_delete p.sent uid, record p { sent = delete_object uid ∷ p.sent })

  -- One round of the loop.
  unfoldable pub configure_one : Desired → Progress → Option String × Progress
  unfolding after_configure owner_check add_error
  configure_one d p =
      let asked = record p { sent = configure_object d ∷ p.sent } in
      elim (owner_check owner_error d) [
        | some e ↦ (none, add_error e p)
        | none ↦ after_configure (on_configure p.sent d) asked
      ]

  unfoldable pub configure_all : List Desired → Progress → Option String × Progress
  unfolding configure_one
  configure_all [] p = (none, p)
  configure_all (d ∷ ds) p =
      let (stop, q) = configure_one d p in
      let rest = configure_all ds q in elim stop [ some e ↦ (some e, q) | none ↦ rest ]

  -- deleteObjects: every object is tried, and the errors are collected.
  unfoldable pub delete_objects : List String → Sent → List String × Sent
  delete_objects [] sent = ([], sent)
  delete_objects (uid ∷ uids) sent =
      let (errors, after) = delete_objects uids (delete_object uid ∷ sent) in
      elim (on_delete sent uid) [ some e ↦ (e ∷ errors, after) | none ↦ (errors, after) ]

  unfoldable pub pruned : List String × Sent → DesiredOutcome × Sent
  pruned ([], sent) = (reconciled, sent)
  pruned (e ∷ es, sent) = (prune_failed (e ∷ es), sent)

  unfoldable pub after_loop : Option String × Progress → DesiredOutcome × Sent
  unfolding pruned delete_objects
  after_loop (some e, p) = (delete_failed e, p.sent)
  after_loop (none, p) = elim p.errors [
    | [] ↦ pruned (delete_objects p.owned p.sent)
    | e ∷ es ↦ (create_failed (e ∷ es), p.sent)
  ]

  unfoldable pub reconcile_desired_objects :
      List Desired → (owned : List String) → Sent → DesiredOutcome × Sent
  unfolding configure_all after_loop
  reconcile_desired_objects desired owned sent =
      after_loop (configure_all desired (record { errors = []; owned = owned; sent = sent }))
