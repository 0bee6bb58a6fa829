-- ===== src/Controller/Operation/Requeue.antt =====
-- What the loop of `ReconcileHandler` makes of the replies of its operations.
use mdai_operator.Prelude.{ℕ, ◌≡◌, List, [], ◌∷◌, Option, none, some, false, arith}
use mdai_operator.Controller.Operation.{
  OperationResult, requeue_or_cancel, Operation, Outcome, verdict, reconcile_handler, requeue,
  requeue_after, finish_dropping, finish_keeping,
}

module _ {S E : Type 0} (operation : Operation S E) (rest : List (Operation S E)) (s : S) where
  pub handler-stop :
      (o : Outcome E)
      → verdict (operation s).0 ≡ some o
      → reconcile_handler (operation ∷ rest) s ≡ (o, (operation s).1)
  unfolding reconcile_handler
  handler-stop o h = ground arith

  pub handler-continue :
      verdict (operation s).0 ≡ none
      → reconcile_handler (operation ∷ rest) s ≡ reconcile_handler rest (operation s).1
  unfolding reconcile_handler
  handler-continue h = ground arith

-- The loop goes past an operation exactly if it returned no error and asked neither for a requeue
-- nor for a stop.
verdict-eq-none_iff :
    {E : Type 0} (r : OperationResult) (e : Option E)
    → ((verdict (r, e) ≡ none → (e ≡ none) × (requeue_or_cancel r ≡ false)))
      × ((e ≡ none) → (requeue_or_cancel r ≡ false) → verdict (r, e) ≡ none)
unfolding verdict requeue_or_cancel
verdict-eq-none_iff r none = ground arith
verdict-eq-none_iff r (some e) = ((λ h. cc), (λ h k. cc))

-- An operation that asks for a requeue without a delay ends the reconciliation with the very
-- outcome of a reconciliation that is complete, and no later operation runs.
pub requeue-eq_complete :
    {S E : Type 0} (operation : Operation S E) (rest : List (Operation S E)) (s s' : S)
    → operation s ≡ (requeue, s')
    → reconcile_handler (operation ∷ rest) s ≡ reconcile_handler [] s'
unfolding reconcile_handler verdict
requeue-eq_complete operation rest s s' h = ground arith

-- After a request for a requeue after a delay, `Reconcile` returns the delay if it keeps the handler's
-- result and no delay if it drops it; the error is the same.
pub requeue_after_outcomes :
    {S E : Type 0} (operation : Operation S E) (rest : List (Operation S E)) (s s' : S) (delay : ℕ)
    (e : Option E)
    → operation s ≡ (requeue_after delay e, s')
    → (finish_keeping (reconcile_handler (operation ∷ rest) s).0
        ≡ (record { requeue_after = delay }, e))
      × (finish_dropping (reconcile_handler (operation ∷ rest) s).0
          ≡ (record { requeue_after = 0 }, e))
unfolding reconcile_handler verdict finish_keeping finish_dropping
requeue_after_outcomes operation rest s s' delay none h = ground arith
requeue_after_outcomes operation rest s s' delay (some e) h = ground arith
