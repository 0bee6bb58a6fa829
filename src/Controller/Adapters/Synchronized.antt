-- ===== src/Controller/Adapters/Synchronized.antt =====
-- What ensureSynchronized of the adapters leaves.
use mdai_operator.Prelude.{
  ◌≡◌, refl, sym, String, List, [], ◌∷◌, ◌++◌, append_assoc, append-nil, Option, none, some, arith,
  All, Option-cases, inl, inr,
}
use mdai_operator.Controller.Operation.{Reply, Outcome, verdict}
use mdai_operator.Controller.Lifecycle.{
  ApiError, conflict, not_found, already_exists, other_error, Request, update, status_update, fetch,
  work,
}
use mdai_operator.Controller.Adapters.{
  Upsert, SyncStep, AdapterState, AdapterApi, run_steps, on_conflict, or_continue, with_error,
  collector_steps, replay_steps, collector_ensure_synchronized, replay_ensure_synchronized,
}

work_of : Request Upsert → List Upsert
work_of (work u) = u ∷ []
work_of (update r) = []
work_of (status_update r) = []
work_of (fetch n ns) = []

-- The objects that were sent, in order.
unfoldable pub upserted : List (Request Upsert) → List Upsert
unfolding work_of
upserted [] = []
upserted (q ∷ qs) = upserted qs ++ work_of q

abbrev pub objects : List SyncStep → List Upsert
objects [] = []
objects (step ∷ steps) = step.object ∷ objects steps

-- An error never lets the loop of operations go on.
abbrev pub Stops : SyncStep → Type 0
Stops step = (e : ApiError) → (o : Outcome ApiError) × (verdict (step.on_error e) ≡ some o)

-- If the operations go on after the steps, every object was created or updated, in order.
run_steps-upserted :
    (answer : List (Request Upsert) → Upsert → Option ApiError) (steps : List SyncStep)
    (s : AdapterState)
    → All Stops steps
    → verdict (run_steps answer steps s).0 ≡ none
    → upserted (run_steps answer steps s).1.sent ≡ upserted s.sent ++ objects steps
unfolding run_steps upserted
run_steps-upserted answer [] s h k = sym (append-nil (upserted s.sent))
run_steps-upserted answer (step ∷ steps) s h k =
    let after = record s { sent = work step.object ∷ s.sent } in
    elim (Option-cases (answer s.sent step.object)) [
      | inl j ↦ ground (
        arith,
        run_steps-upserted answer steps after h.1,
        append_assoc (upserted s.sent) (step.object ∷ []) (objects steps),
      )
      | inr (e, j) ↦ ground (arith, (h.0 e).1)
    ]

or_continue-Stops : (e : ApiError) → (o : Outcome ApiError) × (verdict (or_continue e) ≡ some o)
unfolding verdict or_continue
or_continue-Stops e = (_, refl)

with_error-Stops : (e : ApiError) → (o : Outcome ApiError) × (verdict (with_error e) ≡ some o)
unfolding verdict with_error
with_error-Stops e = (_, refl)

on_conflict-Stops :
    (reply : ApiError → Reply ApiError)
    → ((e : ApiError) → (o : Outcome ApiError) × (verdict (reply e) ≡ some o))
    → (e : ApiError) → (o : Outcome ApiError) × (verdict (on_conflict reply e) ≡ some o)
unfolding verdict on_conflict
on_conflict-Stops reply h conflict = (_, refl)
on_conflict-Stops reply h not_found = h not_found
on_conflict-Stops reply h already_exists = h already_exists
on_conflict-Stops reply h (other_error m) = h (other_error m)

module _ (adapter : AdapterApi) where
  -- If the reconciliation of a collector goes on after ensureSynchronized, its seven objects were
  -- created or updated, in order.
  collector-upserted :
      (s : AdapterState)
      → verdict (collector_ensure_synchronized adapter s).0 ≡ none
      → upserted (collector_ensure_synchronized adapter s).1.sent
        ≡ upserted s.sent ++ objects (collector_steps s.resource.name)
  unfolding collector_ensure_synchronized collector_steps
  collector-upserted s k =
      run_steps-upserted adapter.on_upsert (collector_steps s.resource.name) s
        (
          or_continue-Stops,
          (
            or_continue-Stops,
            (
              or_continue-Stops,
              (
                or_continue-Stops,
                (
                  or_continue-Stops,
                  (on_conflict-Stops or_continue or_continue-Stops, (or_continue-Stops, tt)),
                ),
              ),
            ),
          ),
        )
        k

  -- The same for a replay's three objects.
  pub replay-upserted :
      (hub_name : String) (s : AdapterState)
      → verdict (replay_ensure_synchronized adapter hub_name s).0 ≡ none
      → upserted (replay_ensure_synchronized adapter hub_name s).1.sent
        ≡ upserted s.sent ++ objects (replay_steps s.resource.name hub_name)
  unfolding replay_ensure_synchronized replay_steps
  replay-upserted hub_name s k =
      run_steps-upserted adapter.on_upsert (replay_steps s.resource.name hub_name) s
        (with_error-Stops, (on_conflict-Stops with_error with_error-Stops, (with_error-Stops, tt)))
        k
