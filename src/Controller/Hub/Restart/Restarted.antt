-- ===== src/Controller/Hub/Restart/Restarted.antt =====
-- Which collectors syncComputedConfigMapsAndRestart of internal/controller/hub_adapter.go restarts.
use Prim.Native.String
use mdai_operator.Prelude.{
  ◌≡◌, refl, sym, ap, ◌∙◌, String, List, [], ◌∷◌, ◌++◌, append_assoc, append-nil, Option, none,
  some, Bool, true, false, ◌||◌, member, arith, Bool-cases, Option-cases, inl, inr, if◌then◌else◌,
}
use mdai_operator.Controller.Operation.{continue_processing}
use mdai_operator.Controller.Lifecycle.{
  ApiError, not_found, conflict, already_exists, other_error, Request, update, status_update, fetch,
  work,
}
use mdai_operator.Controller.Hub.Env.{Env}
use mdai_operator.Controller.Hub.Requests.{
  Collector, HubRequest, delete_rule, delete_config_map, upsert_config_map, list_collectors,
  restart, audit, delete_keys, Upserted, created_map, updated_map, unchanged_map, upsert_failed,
  Listed, collectors, list_failed, Sent, HubState, HubApi, send,
}
use mdai_operator.Controller.Hub.Restart.{
  env_postfix, write_maps, restart_all, restart_collector_and_audit, after_restart, finish_restarts,
  restart_changed, sync_listed, sync_computed_config_maps_and_restart,
  create_or_update_env_config_map, list_otel_collectors,
}

restart_of : Request HubRequest → List Collector
restart_of (work (restart c)) = c ∷ []
restart_of (work (audit c)) = []
restart_of (work (delete_rule n ns)) = []
restart_of (work (delete_config_map n ns)) = []
restart_of (work (upsert_config_map n ns env)) = []
restart_of (work (list_collectors h)) = []
restart_of (work (delete_keys keep)) = []
restart_of (update r) = []
restart_of (status_update r) = []
restart_of (fetch n ns) = []

-- The collectors whose restart was sent, in order, whatever the answer was: after a conflict the
-- restart is lost.
unfoldable pub restarted : Sent → List Collector
unfolding restart_of
restarted [] = []
restarted (q ∷ qs) = restarted qs ++ restart_of q

-- The collectors in one of the namespaces.
unfoldable pub within : List String → List Collector → List Collector
unfolding member
within namespaces [] = []
within namespaces (c ∷ cs) =
    let rest = within namespaces cs in if member c.namespace namespaces then c ∷ rest else rest

abbrev is_rewritten : Upserted → Bool
is_rewritten created_map = true
is_rewritten updated_map = true
is_rewritten unchanged_map = false
is_rewritten (upsert_failed e) = false

-- The namespaces, one for each collector of the list, whose ConfigMap the API server answers to have
-- created or updated, where `sent` was sent before.
unfoldable pub rewritten : HubApi → (hub_name : String) → Env → List Collector → Sent → List String
rewritten hub hub_name env [] sent = []
rewritten hub hub_name env (c ∷ cs) sent =
    let name = String.◌++◌ hub_name "-variables" in
    let rest =
      rewritten hub hub_name env cs (work (upsert_config_map name c.namespace env) ∷ sent) in
    if is_rewritten (hub.on_upsert sent name c.namespace env) then c.namespace ∷ rest else rest

within-agrees :
    (ms ns : List String) (cs : List Collector)
    → ((n : String) → member n ms ≡ member n ns)
    → within ms cs ≡ within ns cs
unfolding within
within-agrees ms ns [] h = refl
within-agrees ms ns (c ∷ cs) h = rw (h c.namespace) (rw (within-agrees ms ns cs h) refl)

module _ (hub : HubApi) where
  open hub use {on_upsert, on_list, on_restart, on_audit}

  after_restart-restarted :
      (e : Option ApiError) (c : Collector) (s : HubState)
      → restarted (after_restart hub e c s).1.sent ≡ restarted s.sent
  unfolding after_restart restarted
  after_restart-restarted none c s = append-nil (restarted s.sent)
  after_restart-restarted (some not_found) c s = refl
  after_restart-restarted (some conflict) c s = refl
  after_restart-restarted (some already_exists) c s = refl
  after_restart-restarted (some (other_error m)) c s = refl

  restart_one-restarted :
      (c : Collector) (s : HubState)
      → restarted (restart_collector_and_audit hub c s).1.sent ≡ restarted s.sent ++ (c ∷ [])
  unfolding restart_collector_and_audit restarted
  restart_one-restarted c s = after_restart-restarted (on_restart s.sent c) c (send (restart c) s)

  restart_all-restarted :
      (changed : List String) (cs : List Collector) (s : HubState)
      → (restart_all hub changed cs s).0 ≡ none
      → restarted (restart_all hub changed cs s).1.sent ≡ restarted s.sent ++ within changed cs
  unfolding restart_all within
  restart_all-restarted changed [] s h = sym (append-nil (restarted s.sent))
  restart_all-restarted changed (c ∷ cs) s h = elim (Bool-cases (member c.namespace changed)) [
    | inl m ↦ elim (Option-cases (restart_collector_and_audit hub c s).0) [
      | inl k ↦ ground (
        arith,
        restart_all-restarted changed cs (restart_collector_and_audit hub c s).1 (ground arith),
        restart_one-restarted c s,
        append_assoc (restarted s.sent) (c ∷ []) (within changed cs),
      )
      | inr (e, k) ↦ ground arith
    ]
    | inr m ↦ ground (arith, restart_all-restarted changed cs s (ground arith))
  ]

  -- Writing a ConfigMap restarts nothing.
  write_maps-restarted :
      (env : Env) (changed : List String) (cs : List Collector) (s : HubState)
      → restarted (write_maps hub env changed cs s).1.sent ≡ restarted s.sent
  unfolding write_maps create_or_update_env_config_map restarted
  write_maps-restarted env changed [] s = refl
  write_maps-restarted env changed (c ∷ cs) s =
      by_answer (create_or_update_env_config_map hub env env_postfix c.namespace s).0 (λ known.
        write_maps-restarted env known cs
          (create_or_update_env_config_map hub env env_postfix c.namespace s).1
        ∙ append-nil (restarted s.sent))
    where
      by_answer :
          (r : Upserted)
          → ((known : List String)
              → restarted
                  (write_maps hub env known cs
                    (create_or_update_env_config_map hub env env_postfix c.namespace s).1).1.sent
                ≡ restarted s.sent)
          → restarted
              (elim r as (λ (u : Upserted). (Option ApiError × List String) × HubState) [
                | created_map ↦
                    write_maps hub env
                      (c.namespace ∷ changed)
                      cs
                      (create_or_update_env_config_map hub env env_postfix c.namespace s).1
                | updated_map ↦
                    write_maps hub env
                      (c.namespace ∷ changed)
                      cs
                      (create_or_update_env_config_map hub env env_postfix c.namespace s).1
                | unchanged_map ↦
                    write_maps hub env changed cs
                      (create_or_update_env_config_map hub env env_postfix c.namespace s).1
                | upsert_failed e ↦ (
                  (some e, changed),
                  (create_or_update_env_config_map hub env env_postfix c.namespace s).1,
                )
              ]).1.sent
            ≡ restarted s.sent
      by_answer created_map k = k (c.namespace ∷ changed)
      by_answer updated_map k = k (c.namespace ∷ changed)
      by_answer unchanged_map k = k changed
      by_answer (upsert_failed e) k = append-nil (restarted s.sent)

  -- The namespaces that are remembered are those that were and those that are rewritten.
  write_maps-rewritten :
      (env : Env) (changed : List String) (cs : List Collector) (s : HubState) (n : String)
      → (write_maps hub env changed cs s).0.0 ≡ none
      → member n (write_maps hub env changed cs s).0.1
        ≡ (member n (rewritten hub s.resource.name env cs s.sent) || member n changed)
  unfolding write_maps create_or_update_env_config_map rewritten member
  write_maps-rewritten env changed [] s n h = refl
  write_maps-rewritten env changed (c ∷ cs) s n h =
      let name = String.◌++◌ s.resource.name "-variables" in
      let t = send (upsert_config_map name c.namespace env) s in
      ground (
        arith,
        write_maps-rewritten env (c.namespace ∷ changed) cs t n,
        write_maps-rewritten env changed cs t n,
      )

  finish-continue :
      (p : Option ApiError × HubState)
      → (finish_restarts hub p).0 ≡ continue_processing
      → (p.0 ≡ none) × ((finish_restarts hub p).1 ≡ p.1)
  unfolding finish_restarts
  finish-continue (none, s) h = (refl, refl)
  finish-continue (some e, s) h = cc

  changed-restarted :
      (cs : List Collector) (m : (Option ApiError × List String) × HubState)
      → (restart_changed hub cs m).0 ≡ continue_processing
      → restarted (restart_changed hub cs m).1.sent ≡ restarted m.1.sent ++ within m.0.1 cs
  unfolding restart_changed finish_restarts
  changed-restarted cs ((some e, changed), s) h = cc
  changed-restarted cs ((none, changed), s) h =
      let (ok, same) = finish-continue (restart_all hub changed cs s) h in
      ap (λ (t : HubState). restarted t.sent) same ∙ restart_all-restarted changed cs s ok

  changed-none :
      (cs : List Collector) (m : (Option ApiError × List String) × HubState)
      → (restart_changed hub cs m).0 ≡ continue_processing
      → m.0.0 ≡ none
  unfolding restart_changed
  changed-none cs ((some e, changed), s) h = cc
  changed-none cs ((none, changed), s) h = refl

  -- The collectors of the namespaces that are remembered are those of the rewritten ones.
  within-write_maps :
      (env : Env) (cs : List Collector) (s : HubState)
      → (write_maps hub env [] cs s).0.0 ≡ none
      → within (write_maps hub env [] cs s).0.1 cs
        ≡ within (rewritten hub s.resource.name env cs s.sent) cs
  unfolding member
  within-write_maps env cs s h =
      within-agrees _ _ cs (λ n. ground (arith, write_maps-rewritten env [] cs s n h))

  listed-restarted :
      (env : Env) (s : HubState) (l : Listed) (cs : List Collector)
      → l ≡ collectors cs
      → (sync_listed hub env (l, send (list_collectors s.resource.name) s)).0 ≡ continue_processing
      → restarted (sync_listed hub env (l, send (list_collectors s.resource.name) s)).1.sent
        ≡ restarted s.sent
          ++ within
              (rewritten hub s.resource.name env cs
                (work (list_collectors s.resource.name) ∷ s.sent))
              cs
  unfolding sync_listed restarted
  listed-restarted env s (list_failed e) cs h k = cc
  listed-restarted env s (collectors ds) cs h k =
      let t = send (list_collectors s.resource.name) s in
      let same : ds ≡ cs = cc in
      rw (sym same) (
        changed-restarted ds (write_maps hub env [] ds t) k
        ∙ ap (λ (l : List Collector). l ++ within (write_maps hub env [] ds t).0.1 ds)
            (write_maps-restarted env [] ds t ∙ append-nil (restarted s.sent))
        ∙ ap (λ (l : List Collector). restarted s.sent ++ l)
            (within-write_maps env ds t (changed-none ds (write_maps hub env [] ds t) k)))

  -- Where the list of collectors is read and the reply is to continue, the restarts that were sent,
  -- some of which may have met a conflict, are, in the order of the list, those of the collectors in
  -- the namespaces whose ConfigMap the API server answered to have created or updated, and no others.
  pub sync-restarted :
      (env : Env) (s : HubState) (cs : List Collector)
      → on_list s.sent s.resource.name ≡ collectors cs
      → (sync_computed_config_maps_and_restart hub env s).0 ≡ continue_processing
      → restarted (sync_computed_config_maps_and_restart hub env s).1.sent
        ≡ restarted s.sent
          ++ within
              (rewritten hub s.resource.name env cs
                (work (list_collectors s.resource.name) ∷ s.sent))
              cs
  unfolding sync_computed_config_maps_and_restart list_otel_collectors
  sync-restarted env s cs h k = listed-restarted env s (on_list s.sent s.resource.name) cs h k

  unchanged-maps :
      ((sent : Sent) (name namespace : String) (env : Env)
        → on_upsert sent name namespace env ≡ unchanged_map)
      → (env : Env) (cs : List Collector) (s : HubState)
      → (write_maps hub env [] cs s).0 ≡ (none, [])
  unfolding write_maps create_or_update_env_config_map
  unchanged-maps same env [] s = refl
  unchanged-maps same env (c ∷ cs) s = ground (
    arith,
    same s.sent (String.◌++◌ s.resource.name env_postfix) c.namespace env,
    unchanged-maps same env cs
        (create_or_update_env_config_map hub env env_postfix c.namespace s).1,
  )

  restart_all-nil : (cs : List Collector) (s : HubState) → restart_all hub [] cs s ≡ (none, s)
  unfolding restart_all member
  restart_all-nil [] s = refl
  restart_all-nil (c ∷ cs) s = restart_all-nil cs s

  changed-nil :
      (cs : List Collector) (m : (Option ApiError × List String) × HubState)
      → m.0 ≡ (none, [])
      → restart_changed hub cs m ≡ (continue_processing, m.1)
  unfolding restart_changed finish_restarts
  changed-nil cs ((some e, changed), s) h = cc (ap (λ (r : Option ApiError × List String). r.0) h)
  changed-nil cs ((none, []), s) h = rw (restart_all-nil cs s) refl
  changed-nil cs ((none, n ∷ ns), s) h = cc (ap (λ (r : Option ApiError × List String). r.1) h)

  -- If the list of collectors is read and every ConfigMap is found unchanged, the reply is to continue
  -- and no collector is restarted. It does not depend on what became of earlier restarts: a collector
  -- whose restart was lost after its ConfigMap was written is not restarted by a later run.
  pub sync-unchanged :
      (env : Env) (s : HubState) (cs : List Collector)
      → on_list s.sent s.resource.name ≡ collectors cs
      → ((sent : Sent) (name namespace : String) (e : Env)
          → on_upsert sent name namespace e ≡ unchanged_map)
      → ((sync_computed_config_maps_and_restart hub env s).0 ≡ continue_processing)
        × (restarted (sync_computed_config_maps_and_restart hub env s).1.sent ≡ restarted s.sent)
  unfolding sync_computed_config_maps_and_restart list_otel_collectors sync_listed restarted
  sync-unchanged env s cs h same =
      let t = send (list_collectors s.resource.name) s in
      let quiet = changed-nil cs (write_maps hub env [] cs t) (unchanged-maps same env cs t) in
      rw h (rw quiet (refl, write_maps-restarted env [] cs t ∙ append-nil (restarted s.sent)))
