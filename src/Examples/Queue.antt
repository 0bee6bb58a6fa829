-- ===== src/Examples/Queue.antt =====
-- The theorem on the hubs that are queued again, at a concrete list of hubs.
use mdai_operator.Prelude.{◌≡◌, refl, [], ◌∷◌, ◌++◌, some, codes, present}
use mdai_operator.Controller.Hub.Requeue.{
  Hubs, listed, keyspace, variable_prefix, valkey_event, requeue_by_labels,
}
use mdai_operator.Controller.Hub.Requeue.Keys.{valkey_event-eq_label}

abbrev hubs : Hubs
hubs = listed (
    record { name = codes "b"; namespace = codes "first" }
    ∷ record { name = codes "hub"; namespace = codes "mdai" }
    ∷ [])

valkey_event-eq_label_example :
    present (valkey_event hubs (keyspace ++ variable_prefix (codes "hub") ++ codes "errors/a") ∷ [])
    ≡ requeue_by_labels hubs (some (codes "hub"))
valkey_event-eq_label_example = valkey_event-eq_label hubs b'h' (codes "ub") (codes "errors/a") refl
