-- ===== src/Controller/Operation.antt =====
-- internal/controller/reconcile_operation.go, and the loop of `ReconcileHandler`, which
-- internal/controller/mdaihub_controller.go, mdaireplay_controller.go, mdaidal_controller.go,
-- mdaicollector_controller.go and mdaiobserver_controller.go write out for their own operations.
-- An operation is a function of a state, the cluster and what the process holds, and returns a
-- result, an error if there is one, and the next state.
pub mod Requeue
use mdai_operator.Prelude.{
  ℕ, List, [], ◌∷◌, Option, none, some, Bool, true, false, ◌||◌, if◌then◌else◌,
}

-- `requeue_delay` is a time.Duration, in nanoseconds.
pub record OperationResult : Type 0 where
  pub requeue_delay : ℕ
  pub requeue_request : Bool
  pub cancel_request : Bool

unfoldable pub requeue_or_cancel : OperationResult → Bool
requeue_or_cancel r = r.requeue_request || r.cancel_request

abbrev pub continue_operation_result : OperationResult
continue_operation_result = record {
  requeue_delay = 0;
  requeue_request = false;
  cancel_request = false;
}

abbrev pub stop_operation_result : OperationResult
stop_operation_result = record { requeue_delay = 0; requeue_request = false; cancel_request = true }

-- ctrl.Result: the delay of `RequeueAfter`, zero for none.
pub record CtrlResult : Type 0 where
  pub requeue_after : ℕ

-- The pair `(OperationResult, error)`.
abbrev pub Reply : Type 0 → Type 0
Reply E = OperationResult × Option E

module _ {E : Type 0} where
  abbrev pub stop_processing : Reply E
  stop_processing = (stop_operation_result, none)

  abbrev pub requeue : Reply E
  requeue = (record { requeue_delay = 0; requeue_request = true; cancel_request = false }, none)

  abbrev pub requeue_with_error : Option E → Reply E
  requeue_with_error e =
      (record { requeue_delay = 0; requeue_request = true; cancel_request = false }, e)

  abbrev pub continue_with_error : Option E → Reply E
  continue_with_error e =
      (record { requeue_delay = 0; requeue_request = false; cancel_request = false }, e)

  abbrev pub requeue_on_error_or_stop : Option E → Reply E
  requeue_on_error_or_stop e =
      (record { requeue_delay = 0; requeue_request = false; cancel_request = true }, e)

  abbrev pub requeue_on_error_or_continue : Option E → Reply E
  requeue_on_error_or_continue e =
      (record { requeue_delay = 0; requeue_request = false; cancel_request = false }, e)

  abbrev pub requeue_after : ℕ → Option E → Reply E
  requeue_after delay e =
      (record { requeue_delay = delay; requeue_request = true; cancel_request = false }, e)

  abbrev pub continue_processing : Reply E
  continue_processing = (continue_operation_result, none)

-- A `ReconcileOperation` over the states `S`.
abbrev pub Operation : Type 0 → Type 0 → Type 0
Operation S E = S → Reply E × S

-- The pair `(ctrl.Result, error)`.
abbrev pub Outcome : Type 0 → Type 0
Outcome E = CtrlResult × Option E

-- What the loop of `ReconcileHandler` does after an operation: `none` to go on.
unfoldable pub verdict : {E : Type 0} → Reply E → Option (Outcome E)
verdict (r, some e) = some (record { requeue_after = r.requeue_delay }, some e)
verdict (r, none) =
    if r.requeue_request
    then some (record { requeue_after = r.requeue_delay }, none)
    else if r.cancel_request
    then some (record { requeue_after = 0 }, none)
    else none

module _ {S E : Type 0} where
  -- The loop of `ReconcileHandler`.
  unfoldable pub reconcile_handler : List (Operation S E) → S → Outcome E × S
  unfolding verdict
  reconcile_handler [] s = ((record { requeue_after = 0 }, none), s)
  reconcile_handler (operation ∷ rest) s =
      let (reply, s') = operation s in
      let next = reconcile_handler rest s' in
      elim (verdict reply) [ some outcome ↦ (outcome, s') | none ↦ next ]

-- `Reconcile` of the hub, collector, observer and DAL controllers, after the resource was fetched:
-- the handler's error is kept and its result is dropped.
unfoldable pub finish_dropping : {E : Type 0} → Outcome E → Outcome E
finish_dropping (result, e) = (record { requeue_after = 0 }, e)

-- `Reconcile` of the replay controller: both are kept.
unfoldable pub finish_keeping : {E : Type 0} → Outcome E → Outcome E
finish_keeping outcome = outcome
