-- ===== src/Controller/Desired/Pruning.antt =====
-- Which objects reconcileDesiredObjects deletes.
use mdai_operator.Prelude.{
  ◌≡◌, refl, sym, ap, ◌∙◌, String, List, [], ◌∷◌, ◌++◌, append_assoc, append-nil, Option, none,
  some, Bool, true, false, arith, is_nil, inl, inr, All, ◌⊎◌,
}
use mdai_operator.Controller.Desired.{
  Desired, CrudAnswer, configured, immutable_change, refused, ObjectRequest, configure_object,
  delete_object, Sent, ObjectApi, DesiredOutcome, create_failed, Progress, drop_uid, add_error,
  owner_check, after_configure, configure_one, configure_all, delete_objects, pruned, after_loop,
  reconcile_desired_objects,
}

deletion_of : ObjectRequest → List String
deletion_of (delete_object uid) = uid ∷ []
deletion_of (configure_object d) = []

-- The objects whose deletion was sent, in order.
unfoldable pub deleted : Sent → List String
unfolding deletion_of
deleted [] = []
deleted (q ∷ qs) = deleted qs ++ deletion_of q

module _ (api : ObjectApi) where
  open api use {owner_error, on_configure, on_delete}

  -- Whatever the answers are, every object is tried.
  pub deleted-delete_objects :
      (uids : List String) (sent : Sent)
      → deleted (delete_objects api uids sent).1 ≡ deleted sent ++ uids
  unfolding delete_objects deleted
  deleted-delete_objects [] sent = sym (append-nil (deleted sent))
  deleted-delete_objects (uid ∷ uids) sent = ground (
    arith,
    deleted-delete_objects uids (delete_object uid ∷ sent),
    append_assoc (deleted sent) (uid ∷ []) uids,
  )

  module _ (answer : Desired → CrudAnswer)
      (answers : (sent : Sent) (d : Desired) → on_configure sent d ≡ answer d) where
    -- The answer for a desired object, if its owner can be set.
    abbrev pub result_of : Desired → CrudAnswer
    result_of d = elim (owner_check owner_error d) [ some e ↦ refused e | none ↦ answer d ]

    abbrev pub is_mutable : CrudAnswer → Bool
    is_mutable (immutable_change uid) = false
    is_mutable (configured uid) = true
    is_mutable (refused e) = true

    -- What is left of the owned objects: those that no desired object was configured as.
    abbrev pub not_desired : List Desired → List String → List String
    not_desired [] owned = owned
    not_desired (d ∷ ds) owned = elim (result_of d) [
      | configured uid ↦ not_desired ds (drop_uid uid owned)
      | immutable_change uid ↦ not_desired ds owned
      | refused e ↦ not_desired ds owned
    ]

    abbrev pub failures : List Desired → List String
    failures [] = []
    failures (d ∷ ds) = elim (result_of d) [
      | configured uid ↦ failures ds
      | immutable_change uid ↦ failures ds
      | refused e ↦ e ∷ failures ds
    ]

    configure_one-configured :
        (d : Desired) (p : Progress) (uid : String)
        → result_of d ≡ configured uid
        → ((configure_one api d p).0 ≡ none)
          × ((configure_one api d p).1.errors ≡ p.errors)
          × ((configure_one api d p).1.owned ≡ drop_uid uid p.owned)
          × (deleted (configure_one api d p).1.sent ≡ deleted p.sent)
    unfolding configure_one after_configure deleted
    configure_one-configured d p uid h =
        ground (arith, answers p.sent d, append-nil (deleted p.sent))

    configure_one-refused :
        (d : Desired) (p : Progress) (e : String)
        → result_of d ≡ refused e
        → ((configure_one api d p).0 ≡ none)
          × ((configure_one api d p).1.errors ≡ p.errors ++ e ∷ [])
          × ((configure_one api d p).1.owned ≡ p.owned)
          × (deleted (configure_one api d p).1.sent ≡ deleted p.sent)
    unfolding configure_one after_configure deleted add_error
    configure_one-refused d p e h = ground (arith, answers p.sent d, append-nil (deleted p.sent))

    -- The state of the loop after the desired objects.
    abbrev After : List Desired → Progress → Type 0
    After ds p =
        ((configure_all api ds p).0 ≡ none)
        × ((configure_all api ds p).1.errors ≡ p.errors ++ failures ds)
        × ((configure_all api ds p).1.owned ≡ not_desired ds p.owned)
        × (deleted (configure_all api ds p).1.sent ≡ deleted p.sent)

    CrudAnswer-cases :
        (r : CrudAnswer)
        → is_mutable r ≡ true
        → ((uid : String) × (r ≡ configured uid)) ⊎ ((e : String) × (r ≡ refused e))
    CrudAnswer-cases (configured uid) h = inl (uid, refl)
    CrudAnswer-cases (refused e) h = inr (e, refl)
    CrudAnswer-cases (immutable_change uid) h = cc

    loop-After :
        (ds : List Desired) (p : Progress)
        → All (λ d. is_mutable (result_of d) ≡ true) ds
        → After ds p
    unfolding configure_all
    loop-After [] p h = (refl, sym (append-nil p.errors), refl, refl)
    loop-After (d ∷ ds) p h =
        let q = (configure_one api d p).1 in
        let (ok, errs, owned, same) = loop-After ds q h.1 in
        elim (CrudAnswer-cases (result_of d) h.0) [
          | inl (uid, k) ↦
              let (ok0, errs0, owned0, same0) = configure_one-configured d p uid k in ground arith
          | inr (e, k) ↦
              let (ok0, errs0, owned0, same0) = configure_one-refused d p e k in
              ground (arith, append_assoc p.errors (e ∷ []) (failures ds))
        ]

    abbrev start : List String → Sent → Progress
    start owned sent = record { errors = []; owned = owned; sent = sent }

    deleted-pruned : (r : List String × Sent) → deleted (pruned api r).1 ≡ deleted r.1
    unfolding pruned
    deleted-pruned ([], sent) = refl
    deleted-pruned (e ∷ es, sent) = refl

    -- What `after_loop` deletes, by whether there were errors.
    after_loop-clean :
        (r : Option String × Progress)
        → r.0 ≡ none
        → r.1.errors ≡ []
        → deleted (after_loop api r).1 ≡ deleted r.1.sent ++ r.1.owned
    unfolding after_loop
    after_loop-clean (some e, p) h k = cc
    after_loop-clean (none, p) h k = ground (
      arith,
      deleted-pruned (delete_objects api p.owned p.sent),
      deleted-delete_objects p.owned p.sent,
    )

    after_loop-failed :
        (r : Option String × Progress)
        → r.0 ≡ none
        → is_nil r.1.errors ≡ false
        → after_loop api r ≡ (create_failed r.1.errors, r.1.sent)
    unfolding after_loop
    after_loop-failed (some e, p) h k = cc
    after_loop-failed (none, p) h k = ground arith

    -- Suppose that the answer for a desired object does not depend on what was sent before, and that no
    -- immutable field differs. If every desired object is configured, the objects that are deleted are,
    -- in order, the owned ones that no desired object was configured as.
    pub deleted-not_desired :
        (desired : List Desired) (owned : List String) (sent : Sent)
        → All (λ d. is_mutable (result_of d) ≡ true) desired
        → failures desired ≡ []
        → deleted (reconcile_desired_objects api desired owned sent).1
          ≡ deleted sent ++ not_desired desired owned
    unfolding reconcile_desired_objects
    deleted-not_desired desired owned sent h k =
        let (ok, errs, kept, same) = loop-After desired (start owned sent) h in
        after_loop-clean _ ok (errs ∙ k) ∙ cc (kept, same)

    -- Suppose the same of the answers. If some desired object is not configured, the errors are
    -- returned and nothing is deleted.
    pub failed-nothing_deleted :
        (desired : List Desired) (owned : List String) (sent : Sent)
        → All (λ d. is_mutable (result_of d) ≡ true) desired
        → is_nil (failures desired) ≡ false
        → ((reconcile_desired_objects api desired owned sent).0 ≡ create_failed (failures desired))
          × (deleted (reconcile_desired_objects api desired owned sent).1 ≡ deleted sent)
    unfolding reconcile_desired_objects
    failed-nothing_deleted desired owned sent h k =
        let (ok, errs, kept, same) = loop-After desired (start owned sent) h in
        let step =
          after_loop-failed (configure_all api desired (start owned sent)) ok
            (ap is_nil errs ∙ k) in
        (
          ap (λ (r : DesiredOutcome × Sent). r.0) step ∙ ap create_failed errs,
          ap (λ (r : DesiredOutcome × Sent). deleted r.1) step ∙ same,
        )
