-- ===== src/Controller/Lifecycle/Gate.antt =====
-- The first three operations of every adapter are a gate before the others.
use mdai_operator.Prelude.{
  ◌≡◌, refl, sym, ◌∙◌, String, List, [], ◌∷◌, ◌++◌, Option, none, some, Bool, true, false, not,
  ◌&&◌, arith, Bool-cases, inl, inr, if◌then◌else◌, if◌then◌else◌,
}
use mdai_operator.Controller.Operation.{
  Reply, Operation, Outcome, verdict, reconcile_handler, requeue_with_error,
}
use mdai_operator.Controller.Operation.Requeue.{handler-stop, handler-continue}
use mdai_operator.Controller.Lifecycle.{
  ApiError, other_error, Api, State, HookResult, is_empty, ObjectState, modified, unchanged,
  deletion_reply, ensure_status_reply, ensure_deletion_processed, ensure_status_initialized,
  ensure_finalizer_initialized,
}

module _ {W : Type 0} (api : Api W) where
  open api use {contains_finalizer}

  status_reply_stops :
      (e : Option ApiError)
      → (o : Outcome ApiError) × (verdict (ensure_status_reply api e) ≡ some o)
  unfolding ensure_status_reply verdict
  status_reply_stops none = (_, refl)
  status_reply_stops (some e) = (_, refl)

  -- The reply of a step ends the loop.
  abbrev Stops : Reply ApiError × State W → Type 0
  Stops p = (o : Outcome ApiError) × (verdict p.0 ≡ some o)

  then-Stops :
      (b : Bool) (p q : Reply ApiError × State W) → b ≡ true → Stops p → Stops (if b then p else q)
  then-Stops true p q h k = k
  then-Stops false p q h k = cc

  else-Stops :
      (b : Bool) (p q : Reply ApiError × State W) → b ≡ false → Stops q → Stops (if b then p else q)
  else-Stops true p q h k = cc
  else-Stops false p q h k = k

  added-Stops :
      (b : Bool) (e : Option ApiError) (m : String) (s t : State W)
      → Stops (
          if b
          then (ensure_status_reply api e, s)
          else (requeue_with_error (some (other_error m)), t))
  unfolding verdict
  added-Stops true e m s t = status_reply_stops e
  added-Stops false e m s t = (_, refl)

  module _ (finalizer : String) (before after : State W → HookResult × State W) where
    deletion_reply_stops :
        (o : ObjectState) (e : Option ApiError)
        → (r : Outcome ApiError) × (verdict (deletion_reply api finalizer before after o e)
            ≡ some r)
    unfolding deletion_reply verdict
    deletion_reply_stops modified none = (_, refl)
    deletion_reply_stops modified (some e) = (_, refl)
    deletion_reply_stops unchanged none = (_, refl)
    deletion_reply_stops unchanged (some e) = (_, refl)

    -- The operations that every `ReconcileHandler` runs first.
    abbrev pub gate : List (Operation (State W) ApiError)
    gate =
        ensure_deletion_processed api finalizer before after
        ∷ ensure_status_initialized api
        ∷ ensure_finalizer_initialized api finalizer
        ∷ []

    -- Not being deleted, with a status and with the finalizer.
    abbrev pub is_ready : State W → Bool
    is_ready s =
        not s.resource.deleting
        && (not (is_empty s.resource.conditions)
            && contains_finalizer finalizer s.resource.finalizers)

    -- A resource that is ready passes the gate, and nothing is sent for it there.
    pub gate_open :
        (rest : List (Operation (State W) ApiError)) (s : State W)
        → is_ready s ≡ true
        → reconcile_handler (gate ++ rest) s ≡ reconcile_handler rest s
    unfolding reconcile_handler verdict ensure_deletion_processed ensure_status_initialized
        ensure_finalizer_initialized
    gate_open rest s h = ground arith

    -- What `reconcile_handler` does after a first operation that stops, whatever follows.
    same_stop :
        (operation : Operation (State W) ApiError) (ops ops' : List (Operation (State W) ApiError))
        (s : State W)
        → (o : Outcome ApiError) × (verdict (operation s).0 ≡ some o)
        → reconcile_handler (operation ∷ ops) s ≡ reconcile_handler (operation ∷ ops') s
    same_stop operation ops ops' s (o, h) =
        handler-stop operation ops s o h ∙ sym (handler-stop operation ops' s o h)

    same_continue :
        (operation : Operation (State W) ApiError) (ops ops' : List (Operation (State W) ApiError))
        (s : State W)
        → ((operation s).1 ≡ s) × (verdict (operation s).0 ≡ none)
        → reconcile_handler ops s ≡ reconcile_handler ops' s
        → reconcile_handler (operation ∷ ops) s ≡ reconcile_handler (operation ∷ ops') s
    same_continue operation ops ops' s (e, h) k =
        cc (handler-continue operation ops s h, handler-continue operation ops' s h)

    deletion_stops :
        (s : State W)
        → s.resource.deleting ≡ true
        → (o : Outcome ApiError) × (verdict
              (ensure_deletion_processed api finalizer before after s).0
            ≡ some o)
    unfolding ensure_deletion_processed
    deletion_stops s h = then-Stops _ _ _ h (deletion_reply_stops _ _)

    deletion_continues :
        (s : State W)
        → s.resource.deleting ≡ false
        → ((ensure_deletion_processed api finalizer before after s).1 ≡ s)
          × (verdict (ensure_deletion_processed api finalizer before after s).0 ≡ none)
    unfolding ensure_deletion_processed verdict
    deletion_continues s h = ground arith

    status_stops :
        (s : State W)
        → is_empty s.resource.conditions ≡ true
        → (o : Outcome ApiError) × (verdict (ensure_status_initialized api s).0 ≡ some o)
    unfolding ensure_status_initialized
    status_stops s h = then-Stops _ _ _ h (status_reply_stops _)

    status_continues :
        (s : State W)
        → is_empty s.resource.conditions ≡ false
        → ((ensure_status_initialized api s).1 ≡ s)
          × (verdict (ensure_status_initialized api s).0 ≡ none)
    unfolding ensure_status_initialized verdict
    status_continues s h = ground arith

    finalizer_stops :
        (s : State W)
        → contains_finalizer finalizer s.resource.finalizers ≡ false
        → (o : Outcome ApiError) × (verdict (ensure_finalizer_initialized api finalizer s).0
            ≡ some o)
    unfolding ensure_finalizer_initialized
    finalizer_stops s h = else-Stops _ _ _ h (added-Stops _ _ _ _ _)

    -- A resource that is not ready never passes the gate: nothing depends on the later operations.
    pub gate_shut :
        (rest rest' : List (Operation (State W) ApiError)) (s : State W)
        → is_ready s ≡ false
        → reconcile_handler (gate ++ rest) s ≡ reconcile_handler (gate ++ rest') s
    gate_shut rest rest' s h = elim (Bool-cases s.resource.deleting) [
      | inl d ↦ same_stop _ _ _ s (deletion_stops s d)
      | inr d ↦
          same_continue _ _ _ s (deletion_continues s d)
            (elim (Bool-cases (is_empty s.resource.conditions)) [
              | inl c ↦ same_stop _ _ _ s (status_stops s c)
              | inr c ↦
                  same_continue _ _ _ s (status_continues s c)
                    (same_stop _ _ _ s (finalizer_stops s (ground arith)))
            ])
    ]
