-- ===== src/Controller/Lifecycle/Removal.antt =====
-- What `finalize` does around the removal of the finalizer, and what a second call does.
use mdai_operator.Prelude.{
  ◌≡◌, refl, ◌∙◌, ap, String, List, [], ◌∷◌, Option, none, true, false, arith, member,
  if◌then◌else◌,
}
use mdai_operator.Controller.Operation.{requeue_after}
use mdai_operator.Controller.Lifecycle.{
  ApiError, Api, update, status_update, fetch, finalizing, State, Resource, done, HookResult,
  proceed, hold, modified, unchanged, without, requeue_time, finalize, after_fetch, after_status,
  remove, after_removal, delete_finalizer, send_fetch, send_update, send_status_update, settle,
  put_condition, ensure_deletion_processed,
}

member-without : (f : String) (fs : List String) → member f (without f fs) ≡ false
unfolding member without
member-without f [] = refl
member-without f (g ∷ gs) = ground (arith, member-without f gs)

module _ {W : Type 0} (api : Api W) (finalizer : String)
    (before after : State W → HookResult × State W) where
  open api use {on_update, on_status_update, on_fetch, contains_finalizer, set_condition}

  -- While the adapter's own check holds the deletion, it is asked for again after five seconds with
  -- the check's error, and nothing is sent but what the check sent: the finalizer stays.
  pub deletion_held :
      (s : State W) (e : Option ApiError)
      → s.resource.deleting ≡ true
      → contains_finalizer finalizer s.resource.finalizers ≡ true
      → (before s).0 ≡ hold e
      → ensure_deletion_processed api finalizer before after s
        ≡ (requeue_after requeue_time e, (before s).1)
  unfolding ensure_deletion_processed
  deletion_held s e d c h = ground arith

  -- The API server stores what it is sent and answers with it.
  abbrev Echoes : Type 0
  Echoes =
      ((sent : _) (r : Resource) → on_update sent r ≡ done r)
      × ((sent : _) (r : Resource) → on_status_update sent r ≡ done r)

  -- The state after the finalizer was taken off and the server has accepted it.
  abbrev removed : State W → State W
  removed s =
      let r = record s.resource { finalizers = without finalizer s.resource.finalizers } in
      record { resource = r; sent = update r ∷ s.sent }

  delete_finalizer_lem :
      Echoes
      → (s : State W) → member finalizer s.resource.finalizers ≡ true
      → delete_finalizer api finalizer s ≡ (none, removed s)
  unfolding delete_finalizer send_update settle
  delete_finalizer_lem echo s m = ground (
    arith,
    echo.0 s.sent (record s.resource { finalizers = without finalizer s.resource.finalizers }),
  )

  remove_lem :
      Echoes
      → (s : State W) (e : Option ApiError) → member finalizer s.resource.finalizers ≡ true
      → (after (removed s)).0 ≡ hold e
      → remove api finalizer before after s ≡ ((unchanged, e), (after (removed s)).1)
  unfolding remove after_removal
  remove_lem echo s e m h = rw (delete_finalizer_lem echo s m) (ground arith)

  -- The state after the condition Degraded was set and, if it changed, stored.
  pub degraded : State W → State W
  degraded s =
      let (changed, s') = put_condition api (finalizing s.resource.name) s in
      if changed
      then record { resource = s'.resource; sent = status_update s'.resource ∷ s'.sent }
      else s'

  after_fetch_lem :
      Echoes
      → (s : State W)
      → after_fetch api finalizer before after none s
        ≡ remove api finalizer before after (degraded s)
  unfolding after_fetch degraded send_status_update settle after_status put_condition
  after_fetch_lem echo s = ground (
    arith,
    echo.1 s.sent (record s.resource {
      conditions = (set_condition (finalizing s.resource.name) s.resource.conditions).0;
    }),
  )

  finalizers-degraded : (s : State W) → (degraded s).resource.finalizers ≡ s.resource.finalizers
  unfolding degraded put_condition
  finalizers-degraded s = ground arith

  -- The state in which `finalize` calls `after`, if the server has `r`.
  abbrev before_after : State W → Resource → State W
  before_after s r = removed (
      degraded (record {
        resource = r;
        sent = fetch (before s).1.resource.name (before s).1.resource.namespace ∷ (before s).1.sent;
      }))

  -- Suppose that the API server accepts every write, that it has the resource with the finalizer on
  -- it, and that what the adapter does after the removal fails with `e` and leaves the resource. Then
  -- `finalize` returns ObjectUnchanged with `e`, and `finalize` on the state that is left returns
  -- ObjectModified with no error and does nothing: what failed is not tried again.
  pub cleanup_not_retried :
      (s : State W) (r : Resource) (e : Option ApiError)
      → Echoes
      → ((fs : List String) → contains_finalizer finalizer fs ≡ member finalizer fs)
      → member finalizer s.resource.finalizers ≡ true
      → (before s).0 ≡ proceed
      → on_fetch (before s).1.sent (before s).1.resource.name (before s).1.resource.namespace
        ≡ done r
      → member finalizer r.finalizers ≡ true
      → (after (before_after s r)).0 ≡ hold e
      → (after (before_after s r)).1.resource ≡ (before_after s r).resource
      → (t : State W) × (finalize api finalizer before after s ≡ ((unchanged, e), t))
        × (finalize api finalizer before after t ≡ ((modified, none), t))
  unfolding finalize send_fetch settle
  cleanup_not_retried s r e echo contains m p f n h k =
      let u : State W = record {
        resource = r;
        sent = fetch (before s).1.resource.name (before s).1.resource.namespace ∷ (before s).1.sent;
      } in
      let kept : member finalizer (degraded u).resource.finalizers ≡ true =
        ap (member finalizer) (finalizers-degraded u) ∙ n in
      let step = after_fetch_lem echo u ∙ remove_lem echo (degraded u) e kept h in
      let gone : contains_finalizer finalizer (after (before_after s r)).1.resource.finalizers
          ≡ false =
        contains _
        ∙ (ap (λ (q : Resource). member finalizer q.finalizers) k
            ∙ member-without finalizer (degraded u).resource.finalizers) in
      (
        (after (before_after s r)).1,
        ground (arith, contains s.resource.finalizers, step),
        ground (arith, gone),
      )
