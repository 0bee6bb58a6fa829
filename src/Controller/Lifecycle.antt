-- ===== src/Controller/Lifecycle.antt =====
-- The life cycle that the adapters of internal/controller share: ensureDeletionProcessed,
-- ensureStatusInitialized, ensureFinalizerInitialized, ensureStatusSetToDone, finalize,
-- ensureFinalizerDeleted and deleteFinalizer of hub_adapter.go, mdaireplay_adapter.go,
-- mdaidal_adapter.go, mdaicollector_adapter.go and mdaiobserver_adapter.go. The five copies differ
-- in the finalizer's name, in what finalize does before and after it, and in the reads of the DAL's
-- ensureStatusSetToDone.
--
-- The Kubernetes API is not part of the repository: each answer of the API server is a function of
-- all that was sent before, the record `Api`, and a state is the resource that the adapter holds
-- with the requests sent so far, the last one first. `W` holds the requests of a single adapter.
pub mod Gate
pub mod Removal
pub mod Startup
use Prim.Native.String
use mdai_operator.Prelude.{
  ℕ, String, List, [], ◌∷◌, Option, none, some, Bool, true, false, not, ◌==◌, member, if◌then◌else◌,
}
use mdai_operator.Controller.Operation.{
  Reply, Operation, continue_processing, stop_processing, requeue, requeue_with_error,
  requeue_after,
}

pub data ApiError : Type 0 where
  not_found conflict already_exists : ApiError
  other_error : String → ApiError

pub data ConditionStatus : Type 0 where
  true_status false_status unknown_status : ConditionStatus

pub record Condition : Type 0 where
  pub type : String
  pub status : ConditionStatus
  pub reason : String
  pub message : String

-- What the adapters read and write of a custom resource; `deleting` tells whether the deletion
-- timestamp is set.
pub record Resource : Type 0 where
  pub name : String
  pub namespace : String
  pub finalizers : List String
  pub conditions : List Condition
  pub deleting : Bool

pub data Request (W : Type 0) : Type 0 where
  update : Resource → Request W
  status_update : Resource → Request W
  fetch : (name namespace : String) → Request W
  work : W → Request W

-- An answer holds the resource as the server has it now.
pub data Answer : Type 0 where
  done : Resource → Answer
  failed : ApiError → Answer

-- The API server's answers, and the helpers of controller-runtime and apimachinery:
-- `controllerutil.ContainsFinalizer`, `controllerutil.AddFinalizer` and `meta.SetStatusCondition`,
-- the last two with the Boolean that they return.
pub record Api (W : Type 0) : Type 0 where
  pub on_update : List (Request W) → Resource → Answer
  pub on_status_update : List (Request W) → Resource → Answer
  pub on_fetch : List (Request W) → (name namespace : String) → Answer
  pub contains_finalizer : String → List String → Bool
  pub add_finalizer : String → List String → List String × Bool
  pub set_condition : Condition → List Condition → List Condition × Bool

pub record State (W : Type 0) : Type 0 where
  pub resource : Resource
  pub sent : List (Request W)

-- `ObjectState`: ObjectModified and ObjectUnchanged.
pub data ObjectState : Type 0 where
  modified unchanged : ObjectState

-- What an adapter does in finalize before or after the shared part: go on, or return
-- ObjectUnchanged with an error or none.
pub data HookResult : Type 0 where
  proceed : HookResult
  hold : Option ApiError → HookResult

abbrev pub requeue_time : ℕ
requeue_time = 5000000000

abbrev pub type_available : String
type_available = "Available"

abbrev pub type_degraded : String
type_degraded = "Degraded"

abbrev pub finalizing : String → Condition
finalizing name = record {
  type = type_degraded;
  status = true_status;
  reason = "Finalizing";
  message =
      String.◌++◌ "Finalizer operations for custom resource "
        (String.◌++◌ name " name were successfully accomplished");
}

unfoldable pub is_empty : {A : Type 0} → List A → Bool
is_empty [] = true
is_empty (x ∷ xs) = false

-- slices.DeleteFunc(finalizers, f == finalizer)
unfoldable pub without : String → List String → List String
without f [] = []
without f (g ∷ gs) = let rest = without f gs in if g == f then rest else g ∷ rest

module _ {W : Type 0} (api : Api W) where
  open api use {
    on_update, on_status_update, on_fetch, contains_finalizer, add_finalizer, set_condition,
  }

  -- What a request leaves: the error if it failed, and the resource that the server returned.
  settle : Request W → Answer → State W → Option ApiError × State W
  settle request (done r) s = (none, record { resource = r; sent = request ∷ s.sent })
  settle request (failed e) s = (some e, record s { sent = request ∷ s.sent })

  -- client.Update, Status().Update and client.Get on the resource that is held.
  unfoldable pub send_update : State W → Option ApiError × State W
  unfolding settle
  send_update s = settle (update s.resource) (on_update s.sent s.resource) s

  unfoldable pub send_status_update : State W → Option ApiError × State W
  unfolding settle
  send_status_update s = settle (status_update s.resource) (on_status_update s.sent s.resource) s

  unfoldable pub send_fetch : State W → Option ApiError × State W
  unfolding settle
  send_fetch s =
      settle (fetch s.resource.name s.resource.namespace)
        (on_fetch s.sent s.resource.name s.resource.namespace) s

  -- meta.SetStatusCondition on the resource that is held.
  unfoldable pub put_condition : Condition → State W → Bool × State W
  put_condition c s =
      let (conditions, changed) = set_condition c s.resource.conditions in
      (changed, record s { resource = record s.resource { conditions = conditions } })

  unfoldable pub delete_finalizer : String → State W → Option ApiError × State W
  unfolding send_update without member
  delete_finalizer finalizer s =
      if member finalizer s.resource.finalizers
      then send_update (record s {
        resource = record s.resource { finalizers = without finalizer s.resource.finalizers };
      })
      else (none, s)

  ensure_status_reply : Option ApiError → Reply ApiError
  ensure_status_reply none = stop_processing
  ensure_status_reply (some e) = requeue_with_error (some e)

  unfoldable pub ensure_status_initialized : Operation (State W) ApiError
  unfolding put_condition send_status_update ensure_status_reply is_empty
  ensure_status_initialized s =
      let (changed, s') =
        put_condition
          (record {
            type = type_available;
            status = unknown_status;
            reason = "Reconciling";
            message = "Starting reconciliation";
          })
          s in
      let (e, s'') = send_status_update s' in
      if is_empty s.resource.conditions
      then (ensure_status_reply e, s'')
      else (continue_processing, s)

  unfoldable pub ensure_finalizer_initialized : String → Operation (State W) ApiError
  unfolding send_update ensure_status_reply
  ensure_finalizer_initialized finalizer s =
      if contains_finalizer finalizer s.resource.finalizers
      then (continue_processing, s)
      else let (finalizers, added) = add_finalizer finalizer s.resource.finalizers in
        let s' = record s { resource = record s.resource { finalizers = finalizers } } in
        let (e, s'') = send_update s' in
        if added then (ensure_status_reply e, s'') else (
          requeue_with_error
              (some (other_error (String.◌++◌ "failed to add finalizer " finalizer))),
          s',
        )

  done_reply : Option ApiError → Reply ApiError
  done_reply none = continue_processing
  done_reply (some e) = requeue

  -- After the resource was fetched again.
  set_done : Option ApiError → Operation (State W) ApiError
  unfolding put_condition send_status_update done_reply
  set_done (some e) s = (requeue, s)
  set_done none s =
      let (changed, s') =
        put_condition
          (record {
            type = type_available;
            status = true_status;
            reason = "Reconciling";
            message = "reconciled successfully";
          })
          s in
      let (e, s'') = send_status_update s' in (done_reply e, s'')

  unfoldable pub ensure_status_set_to_done : Operation (State W) ApiError
  unfolding send_fetch set_done
  ensure_status_set_to_done s = let (e, s') = send_fetch s in set_done e s'

  module _ (finalizer : String) (before after : State W → HookResult × State W) where
    -- The rest of finalize after the finalizer was removed.
    after_removal : Option ApiError → State W → (ObjectState × Option ApiError) × State W
    after_removal (some e) s = ((unchanged, some e), s)
    after_removal none s =
        let (r, s') = after s in
        elim r [ proceed ↦ ((modified, none), s') | hold e ↦ ((unchanged, e), s') ]

    remove : State W → (ObjectState × Option ApiError) × State W
    unfolding delete_finalizer after_removal
    remove s = let (e, s') = delete_finalizer finalizer s in after_removal e s'

    after_status : Option ApiError → State W → (ObjectState × Option ApiError) × State W
    unfolding remove
    after_status (some not_found) s = ((modified, none), s)
    after_status (some e) s = ((unchanged, some e), s)
    after_status none s = remove s

    -- After the resource was fetched: the condition Degraded, and its update if it changed.
    after_fetch : Option ApiError → State W → (ObjectState × Option ApiError) × State W
    unfolding put_condition send_status_update after_status remove
    after_fetch (some not_found) s = ((modified, none), s)
    after_fetch (some e) s = ((unchanged, some e), s)
    after_fetch none s =
        let (changed, s') = put_condition (finalizing s.resource.name) s in
        let (e, s'') = send_status_update s' in if changed then after_status e s'' else remove s'

    unfoldable pub finalize : State W → (ObjectState × Option ApiError) × State W
    unfolding send_fetch after_fetch
    finalize s =
        let (r, s') = before s in
        let (e, s'') = send_fetch s' in
        if contains_finalizer finalizer s.resource.finalizers
        then elim r [ proceed ↦ after_fetch e s'' | hold h ↦ ((unchanged, h), s') ]
        else ((modified, none), s)

    deletion_reply : ObjectState → Option ApiError → Reply ApiError
    deletion_reply modified none = stop_processing
    deletion_reply modified (some e) = requeue_after requeue_time (some e)
    deletion_reply unchanged e = requeue_after requeue_time e

    unfoldable pub ensure_deletion_processed : Operation (State W) ApiError
    unfolding finalize deletion_reply
    ensure_deletion_processed s =
        let ((state, e), s') = finalize s in
        if s.resource.deleting then (deletion_reply state e, s') else (continue_processing, s)

-- An adapter with nothing of its own to do in finalize.
abbrev pub no_hook : {W : Type 0} → State W → HookResult × State W
no_hook s = (proceed, s)
