-- ===== src/Controller/Hub/Requeue.antt =====
-- What queues a hub again in internal/controller/mdaihub_controller.go: a change of a key in Valkey
-- (startValkeySubscription) and a new collector (requeueByLabels). Texts are lists of bytes.
pub mod Keys
use mdai_operator.Prelude.{
  ℕ, List, [], ◌∷◌, ◌++◌, Option, none, some, Bool, true, false, ◌&&◌, eqb, if◌then◌else◌, codes,
  same_text,
}

pub record HubName : Type 0 where
  pub name : List ℕ
  pub namespace : List ℕ

-- The answer of `r.List` over all namespaces.
pub data Hubs : Type 0 where
  listed : List HubName → Hubs
  list_failed : Hubs

pub data Found : Type 0 where
  found_in : (namespace : List ℕ) → Found
  not_found : Found
  find_failed : Found

-- The first hub of that name.
unfoldable pub find_in : List HubName → List ℕ → Found
unfolding same_text
find_in [] name = not_found
find_in (hub ∷ hubs) name =
    let rest = find_in hubs name in if same_text hub.name name then found_in hub.namespace else rest

unfoldable pub find_hub_namespace : Hubs → List ℕ → Found
unfolding find_in
find_hub_namespace (listed hubs) name = find_in hubs name
find_hub_namespace list_failed name = find_failed

unfoldable pub has_prefix : List ℕ → List ℕ → Bool
has_prefix [] s = true
has_prefix (c ∷ p) [] = false
has_prefix (c ∷ p) (d ∷ s) = eqb c d && has_prefix p s

unfoldable pub drop_prefix : List ℕ → List ℕ → List ℕ
drop_prefix [] s = s
drop_prefix (c ∷ p) [] = []
drop_prefix (c ∷ p) (d ∷ s) = drop_prefix p s

-- strings.TrimPrefix
unfoldable pub trim_prefix : List ℕ → List ℕ → List ℕ
unfolding has_prefix drop_prefix
trim_prefix p s = if has_prefix p s then drop_prefix p s else s

-- What stands before the first slash, and what stands after it.
unfoldable pub split : List ℕ → List ℕ × Option (List ℕ)
split [] = ([], none)
split (c ∷ s) =
    let (before, after) = split s in if eqb c b'/' then ([], some s) else (c ∷ before, after)

-- The second of the three parts of strings.SplitN(key, "/", 3), if there are three.
unfoldable pub hub_of_key : List ℕ → Option (List ℕ)
unfolding split
hub_of_key key = elim (split key).1 [
  | none ↦ none
  | some rest ↦ elim (split rest).1 [ none ↦ none | some last ↦ some (split rest).0 ]
]

abbrev pub keyspace : List ℕ
keyspace = codes "__keyspace@0__:"

-- VariableKeyPrefix, the name of the hub and a slash: the keys that finalize deletes.
unfoldable pub variable_prefix : List ℕ → List ℕ
variable_prefix hub = codes "variable/" ++ hub ++ b'/' ∷ []

unfoldable pub when_found : List ℕ → Found → Option HubName
when_found name (found_in namespace) = some (record { name = name; namespace = namespace })
when_found name not_found = none
when_found name find_failed = none

-- The hub of a name, if the key has one.
unfoldable pub on_hub : Hubs → Option (List ℕ) → Option HubName
unfolding when_found find_hub_namespace
on_hub hubs none = none
on_hub hubs (some hub) = when_found hub (find_hub_namespace hubs hub)

-- The message handler of startValkeySubscription: the hub that is sent to the channel of events.
unfoldable pub valkey_event : Hubs → (channel : List ℕ) → Option HubName
unfolding hub_of_key trim_prefix on_hub
valkey_event hubs channel = on_hub hubs (hub_of_key (trim_prefix keyspace channel))

-- requeueByLabels, on the value of the collector's label.
unfoldable pub requeue_by_labels : Hubs → Option (List ℕ) → List HubName
unfolding when_found find_hub_namespace
requeue_by_labels hubs none = []
requeue_by_labels hubs (some []) = []
requeue_by_labels hubs (some (c ∷ label)) =
    elim (when_found (c ∷ label) (find_hub_namespace hubs (c ∷ label))) [
      | none ↦ []
      | some hub ↦ hub ∷ []
    ]
