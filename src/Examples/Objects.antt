-- ===== src/Examples/Objects.antt =====
-- The theorems on the objects that the controllers create, update and delete, at concrete states.
use mdai_operator.Prelude.{List, ◌≡◌, refl, [], ◌∷◌, ◌++◌, none, false, member}
use mdai_operator.Controller.Operation.{Operation, reconcile_handler}
use mdai_operator.Controller.Hub.Requests.{HubRequest}
use mdai_operator.Controller.Lifecycle.{State, ApiError, is_empty, no_hook}
use mdai_operator.Controller.Lifecycle.Gate.{gate}
use mdai_operator.Controller.Lifecycle.Startup.{startup, Works}
use mdai_operator.Controller.Desired.{
  Desired, CrudAnswer, configured, refused, ObjectApi, create_failed, reconcile_desired_objects,
  owner_check, drop_uid,
}
use mdai_operator.Controller.Desired.Pruning.{deleted, deleted-not_desired, failed-nothing_deleted}
use mdai_operator.Examples.{api, created}

abbrev grpc : Desired
grpc = record { name = "grpc"; cluster_scoped = false }

abbrev ingress : Desired
ingress = record { name = "ingress"; cluster_scoped = false }

-- Every object is configured, or the ingress is refused.
abbrev all_configured : Desired → CrudAnswer
all_configured d = configured d.name

abbrev objects_api : ObjectApi
objects_api = record {
  owner_error = λ d. none;
  on_configure = λ sent d. all_configured d;
  on_delete = λ sent uid. none;
}

abbrev all_refused : Desired → CrudAnswer
all_refused d = refused "invalid"

abbrev refusing_api : ObjectApi
refusing_api = record objects_api { on_configure = λ sent d. all_refused d }

deleted-not_desired_example :
    deleted (reconcile_desired_objects objects_api (grpc ∷ ingress ∷ []) ("grpc" ∷ "old" ∷ []) []).1
    ≡ deleted [] ++ "old" ∷ []
unfolding owner_check drop_uid
deleted-not_desired_example =
    deleted-not_desired objects_api all_configured (λ sent d. refl) (grpc ∷ ingress ∷ [])
      ("grpc" ∷ "old" ∷ []) [] (refl, (refl, tt)) refl

failed-nothing_deleted_example :
    ((reconcile_desired_objects refusing_api (grpc ∷ []) ("old" ∷ []) []).0
      ≡ create_failed ("invalid" ∷ []))
    × (deleted (reconcile_desired_objects refusing_api (grpc ∷ []) ("old" ∷ []) []).1 ≡ deleted [])
unfolding owner_check
failed-nothing_deleted_example =
    failed-nothing_deleted refusing_api all_refused (λ sent d. refl) (grpc ∷ []) ("old" ∷ []) []
      (refl, tt) refl

works : Works api "f" no_hook no_hook
unfolding is_empty member
works = record {
  stores = λ sent r. refl;
  stores_status = λ sent r. refl;
  sets = λ c cs. refl;
  adds = λ fs h. (refl, refl);
}

startup_example :
    (t u : _) × ((rest : List (Operation (State HubRequest) ApiError))
      → (reconcile_handler (gate api "f" no_hook no_hook ++ rest) created
          ≡ ((record { requeue_after = 0 }, none), t))
        × (reconcile_handler (gate api "f" no_hook no_hook ++ rest) t
            ≡ ((record { requeue_after = 0 }, none), u))
        × (reconcile_handler (gate api "f" no_hook no_hook ++ rest) u ≡ reconcile_handler rest u))
unfolding is_empty member
startup_example = startup api "f" no_hook no_hook works created refl refl refl
