-- ===== src/Controller/Replay.antt =====
-- The life cycle of internal/controller/mdaireplay_adapter.go: its finalize waits for the collector's
-- sending queue. The answer of the collector's metrics endpoint, whose size is a floating-point
-- number, is read only by whether it is above zero.
pub mod Config
pub mod Metrics
use mdai_operator.Prelude.{
  ◌≡◌, ap, ◌∙◌, String, List, ◌∷◌, Option, none, some, Bool, true, false, arith, if◌then◌else◌,
}
use mdai_operator.Controller.Operation.{Reply, Operation, reconcile_handler, finish_keeping}
use mdai_operator.Controller.Operation.Requeue.{requeue_after_outcomes}
use mdai_operator.Controller.Lifecycle.{
  ApiError, Api, Request, work, State, HookResult, proceed, hold, ObjectState, finalize,
  ensure_deletion_processed, ensure_status_initialized, ensure_finalizer_initialized,
  ensure_status_set_to_done, no_hook, requeue_time,
}
use mdai_operator.Controller.Lifecycle.Removal.{deletion_held}

pub data ReplayRequest : Type 0 where
  queue_metric : (name namespace : String) → ReplayRequest

pub data QueueSize : Type 0 where
  size : (is_positive : Bool) → QueueSize
  metric_failed : ApiError → QueueSize

abbrev pub ReplayState : Type 0
ReplayState = State ReplayRequest

pub record ReplayApi : Type 0 where
  pub api : Api ReplayRequest
  pub on_metric : List (Request ReplayRequest) → (name namespace : String) → QueueSize

abbrev pub replay_finalizer : String
replay_finalizer = "mydecisive.ai/replay_finalizer"

unfoldable pub queue_result : QueueSize → HookResult
queue_result (size true) = hold none
queue_result (size false) = proceed
queue_result (metric_failed e) = hold (some e)

module _ (replay : ReplayApi) (ignore_sending_queue : Bool) where
  open replay use {on_metric}

  -- What finalize does before the shared part.
  unfoldable pub queue_hook : ReplayState → HookResult × ReplayState
  unfolding queue_result
  queue_hook s = if ignore_sending_queue then (proceed, s) else (
    queue_result (on_metric s.sent s.resource.name s.resource.namespace),
    record s { sent = work (queue_metric s.resource.name s.resource.namespace) ∷ s.sent },
  )

  unfoldable pub replay_finalize : ReplayState → (ObjectState × Option ApiError) × ReplayState
  unfolding finalize queue_hook
  replay_finalize = finalize replay.api replay_finalizer queue_hook no_hook

  unfoldable pub replay_ensure_deletion_processed : Operation ReplayState ApiError
  unfolding ensure_deletion_processed queue_hook
  replay_ensure_deletion_processed =
      ensure_deletion_processed replay.api replay_finalizer queue_hook no_hook

  unfoldable pub replay_ensure_status_initialized : Operation ReplayState ApiError
  unfolding ensure_status_initialized
  replay_ensure_status_initialized = ensure_status_initialized replay.api

  unfoldable pub replay_ensure_finalizer_initialized : Operation ReplayState ApiError
  unfolding ensure_finalizer_initialized
  replay_ensure_finalizer_initialized = ensure_finalizer_initialized replay.api replay_finalizer

  unfoldable pub replay_ensure_status_set_to_done : Operation ReplayState ApiError
  unfolding ensure_status_set_to_done
  replay_ensure_status_set_to_done = ensure_status_set_to_done replay.api

  queue_hook-waits :
      (s : ReplayState)
      → ignore_sending_queue ≡ false
      → on_metric s.sent s.resource.name s.resource.namespace ≡ size true
      → queue_hook s ≡ (
        hold none,
        record s { sent = work (queue_metric s.resource.name s.resource.namespace) ∷ s.sent },
      )
  unfolding queue_hook queue_result
  queue_hook-waits s i m = ground arith

  -- A replay that is deleted while its sending queue is to be waited for and is not empty: `Reconcile`
  -- asks to be run again after five seconds without an error, whatever the later operations are, and
  -- only the metric was asked for, so that the finalizer stays.
  replay_waits :
      (rest : List (Operation ReplayState ApiError)) (s : ReplayState)
      → ignore_sending_queue ≡ false
      → s.resource.deleting ≡ true
      → replay.api.contains_finalizer replay_finalizer s.resource.finalizers ≡ true
      → on_metric s.sent s.resource.name s.resource.namespace ≡ size true
      → (finish_keeping (reconcile_handler (replay_ensure_deletion_processed ∷ rest) s).0
          ≡ (record { requeue_after = requeue_time }, none))
        × ((replay_ensure_deletion_processed s).1
            ≡ record s { sent = work (queue_metric s.resource.name s.resource.namespace) ∷ s.sent })
  unfolding replay_ensure_deletion_processed
  replay_waits rest s i d f m =
      let waiting = queue_hook-waits s i m in
      let held =
        deletion_held replay.api replay_finalizer queue_hook no_hook s none d f
          (ap (λ (p : HookResult × ReplayState). p.0) waiting) in
      (
        (requeue_after_outcomes replay_ensure_deletion_processed rest s (queue_hook s).1
            requeue_time none held).0,
        ap (λ (p : Reply ApiError × ReplayState). p.1) held
            ∙ ap (λ (p : HookResult × ReplayState). p.1) waiting,
      )
