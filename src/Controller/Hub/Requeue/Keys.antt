-- ===== src/Controller/Hub/Requeue/Keys.antt =====
-- A key in Valkey leads back to the hub that it was written for.
use mdai_operator.Prelude.{
  ◌≡◌, refl, ap, ◌∙◌, append_assoc, arith, ℕ, List, [], ◌∷◌, ◌++◌, Option, none, some, Bool, true,
  not, eqb, all, codes, present,
}
use mdai_operator.Controller.Hub.Requeue.{
  HubName, Hubs, split, hub_of_key, keyspace, variable_prefix, when_found, trim_prefix, has_prefix,
  drop_prefix, find_hub_namespace, on_hub, valkey_event, requeue_by_labels,
}

abbrev pub no_slash : List ℕ → Bool
no_slash s = all (λ c. not (eqb c b'/')) s

split-append : (s t : List ℕ) → no_slash s ≡ true → split (s ++ b'/' ∷ t) ≡ (s, some t)
unfolding split
split-append [] t h = refl
split-append (c ∷ s) t h = ground (arith, split-append s t)

-- The hub of a key under the prefix of a hub.
hub_of_key-variable_prefix :
    (hub key : List ℕ) → no_slash hub ≡ true → hub_of_key (variable_prefix hub ++ key) ≡ some hub
unfolding hub_of_key variable_prefix split
hub_of_key-variable_prefix hub key h =
    ap (λ s. hub_of_key (codes "variable/" ++ s)) (append_assoc hub (b'/' ∷ []) key)
    ∙ second_part (split (hub ++ b'/' ∷ key)) (split-append hub key h)
  where
    second_part :
        (parts : List ℕ × Option (List ℕ))
        → parts ≡ (hub, some key)
        → elim parts.1 [ none ↦ none | some last ↦ some parts.0 ] ≡ some hub
    second_part parts e = rw (ap (λ p. p.1) e) (ap (λ p. some p.0) e)

-- For a hub whose name is not empty and has no slash, a change of one of its variables in Valkey
-- queues exactly the hub that a new collector with that name in its label queues.
pub valkey_event-eq_label :
    (hubs : Hubs) (c : ℕ) (name key : List ℕ)
    → no_slash (c ∷ name) ≡ true
    → present (valkey_event hubs (keyspace ++ variable_prefix (c ∷ name) ++ key) ∷ [])
      ≡ requeue_by_labels hubs (some (c ∷ name))
unfolding valkey_event on_hub trim_prefix has_prefix drop_prefix requeue_by_labels
valkey_event-eq_label hubs c name key h =
    ap (λ o. present (on_hub hubs o ∷ [])) (hub_of_key-variable_prefix (c ∷ name) key h)
    ∙ as_list (when_found (c ∷ name) (find_hub_namespace hubs (c ∷ name)))
  where
    as_list : (o : Option HubName) → present (o ∷ []) ≡ elim o [ none ↦ [] | some hub ↦ hub ∷ [] ]
    as_list none = refl
    as_list (some hub) = refl
