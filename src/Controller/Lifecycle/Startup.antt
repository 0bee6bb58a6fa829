-- ===== src/Controller/Lifecycle/Startup.antt =====
-- A new resource reaches the later operations in the third reconciliation.
use mdai_operator.Prelude.{◌≡◌, refl, ap, ◌∙◌, String, List, ◌∷◌, ◌++◌, none, true, false, arith}
use mdai_operator.Controller.Operation.{
  Reply, Operation, Outcome, verdict, reconcile_handler, stop_processing, continue_processing,
}
use mdai_operator.Controller.Operation.Requeue.{handler-stop, handler-continue}
use mdai_operator.Controller.Lifecycle.{
  ApiError, Api, Request, update, status_update, State, Resource, done, Condition, unknown_status,
  type_available, HookResult, is_empty, settle, send_update, send_status_update, put_condition,
  ensure_status_reply, ensure_deletion_processed, ensure_status_initialized,
  ensure_finalizer_initialized,
}
use mdai_operator.Controller.Lifecycle.Gate.{gate, gate_open}

module _ {W : Type 0} (api : Api W) (finalizer : String)
    (before after : State W → HookResult × State W) where
  open api use {on_update, on_status_update, contains_finalizer, add_finalizer, set_condition}

  -- The API server stores and returns what it is sent; a condition that is set is there afterwards, and
  -- a finalizer that is added to a list without it is in the list afterwards.
  pub record Works : Type 0 where
    pub stores : (sent : List (Request W)) (r : Resource) → on_update sent r ≡ done r
    pub stores_status : (sent : List (Request W)) (r : Resource) → on_status_update sent r ≡ done r
    pub sets : (c : Condition) (cs : List Condition) → is_empty (set_condition c cs).0 ≡ false
    pub adds :
        (fs : List String)
        → contains_finalizer finalizer fs ≡ false
        → ((add_finalizer finalizer fs).1 ≡ true)
          × (contains_finalizer finalizer (add_finalizer finalizer fs).0 ≡ true)

  abbrev reconciling : Condition
  reconciling = record {
    type = type_available;
    status = unknown_status;
    reason = "Reconciling";
    message = "Starting reconciliation";
  }

  -- The resource with its first condition, and then with the finalizer too.
  abbrev with_status : State W → State W
  with_status s =
      let r = record s.resource {
        conditions = (set_condition reconciling s.resource.conditions).0;
      } in
      record { resource = r; sent = status_update r ∷ s.sent }

  abbrev with_finalizer : State W → State W
  with_finalizer s =
      let r = record s.resource {
        finalizers = (add_finalizer finalizer s.resource.finalizers).0;
      } in
      record { resource = r; sent = update r ∷ s.sent }

  module _ (works : Works) where
    open works use {stores, stores_status, sets, adds}

    status_step :
        (s : State W)
        → is_empty s.resource.conditions ≡ true
        → ensure_status_initialized api s ≡ (stop_processing, with_status s)
    unfolding ensure_status_initialized put_condition send_status_update settle ensure_status_reply
    status_step s h = rw h (rw (stores_status s.sent (with_status s).resource) refl)

    finalizer_step :
        (s : State W)
        → contains_finalizer finalizer s.resource.finalizers ≡ false
        → ensure_finalizer_initialized api finalizer s ≡ (stop_processing, with_finalizer s)
    unfolding ensure_finalizer_initialized send_update settle ensure_status_reply
    finalizer_step s h =
        rw h (
          rw (adds s.resource.finalizers h).0 (rw (stores s.sent (with_finalizer s).resource) refl))

    deletion_step :
        (s : State W)
        → s.resource.deleting ≡ false
        → (verdict (ensure_deletion_processed api finalizer before after s).0 ≡ none)
          × ((ensure_deletion_processed api finalizer before after s).1 ≡ s)
    unfolding ensure_deletion_processed verdict
    deletion_step s h = ground arith

    -- The reconciliation passes the deletion and comes to the rest of the gate.
    past_deletion :
        (ops : List (Operation (State W) ApiError)) (s : State W)
        → s.resource.deleting ≡ false
        → reconcile_handler (ensure_deletion_processed api finalizer before after ∷ ops) s
          ≡ reconcile_handler ops s
    past_deletion ops s h =
        let (v, same) = deletion_step s h in
        handler-continue (ensure_deletion_processed api finalizer before after) ops s v
        ∙ ap (reconcile_handler ops) same

    stopped : Outcome ApiError
    stopped = (record { requeue_after = 0 }, none)

    stop_with :
        (op : Operation (State W) ApiError) (ops : List (Operation (State W) ApiError))
        (s t : State W)
        → op s ≡ (stop_processing, t)
        → reconcile_handler (op ∷ ops) s ≡ (stopped, t)
    unfolding verdict stopped
    stop_with op ops s t h =
        handler-stop op ops s stopped (ap (λ (p : Reply ApiError × State W). verdict p.0) h)
        ∙ ap (λ (p : Reply ApiError × State W). (stopped, p.1)) h

    first_run :
        (rest : List (Operation (State W) ApiError)) (s : State W)
        → s.resource.deleting ≡ false
        → is_empty s.resource.conditions ≡ true
        → reconcile_handler (gate api finalizer before after ++ rest) s ≡ (stopped, with_status s)
    first_run rest s d e =
        past_deletion _ s d
        ∙ stop_with (ensure_status_initialized api) _ s (with_status s) (status_step s e)

    status_kept :
        (s : State W)
        → is_empty s.resource.conditions ≡ false
        → ensure_status_initialized api s ≡ (continue_processing, s)
    unfolding ensure_status_initialized
    status_kept s h = rw h refl

    second_run :
        (rest : List (Operation (State W) ApiError)) (s : State W)
        → s.resource.deleting ≡ false
        → is_empty s.resource.conditions ≡ false
        → contains_finalizer finalizer s.resource.finalizers ≡ false
        → reconcile_handler (gate api finalizer before after ++ rest) s
          ≡ (stopped, with_finalizer s)
    unfolding verdict
    second_run rest s d e f =
        past_deletion _ s d
        ∙ (skip_status
            ∙ stop_with (ensure_finalizer_initialized api finalizer) rest s (with_finalizer s)
                (finalizer_step s f))
      where
        skip_status :
            reconcile_handler
              (ensure_status_initialized api ∷ ensure_finalizer_initialized api finalizer ∷ rest)
              s
            ≡ reconcile_handler (ensure_finalizer_initialized api finalizer ∷ rest) s
        skip_status =
            handler-continue (ensure_status_initialized api)
              (ensure_finalizer_initialized api finalizer ∷ rest) s
              (ap (λ (p : Reply ApiError × State W). verdict p.0) (status_kept s e))
            ∙ ap
                (λ (p : Reply ApiError × State W).
                  reconcile_handler (ensure_finalizer_initialized api finalizer ∷ rest) p.1)
                (status_kept s e)

    -- Suppose that the API server and the helpers work. A new resource, without a condition and without
    -- the finalizer, is reconciled twice with no later operation run, and the third reconciliation, in
    -- the state that the second one leaves, is just the run of the later operations.
    pub startup :
        (s : State W)
        → s.resource.deleting ≡ false
        → is_empty s.resource.conditions ≡ true
        → contains_finalizer finalizer s.resource.finalizers ≡ false
        → (t u : State W) × ((rest : List (Operation (State W) ApiError))
            → (reconcile_handler (gate api finalizer before after ++ rest) s
                ≡ ((record { requeue_after = 0 }, none), t))
              × (reconcile_handler (gate api finalizer before after ++ rest) t
                  ≡ ((record { requeue_after = 0 }, none), u))
              × (reconcile_handler (gate api finalizer before after ++ rest) u
                  ≡ reconcile_handler rest u))
    unfolding stopped
    startup s d e f =
        let nonempty = sets reconciling s.resource.conditions in
        let added = (adds s.resource.finalizers f).1 in
        (
          with_status s,
          with_finalizer (with_status s),
          λ rest. (
            first_run rest s d e,
            second_run rest (with_status s) d nonempty f,
            gate_open api finalizer before after rest (with_finalizer (with_status s))
                (rw d (rw nonempty (rw added refl))),
          ),
        )
