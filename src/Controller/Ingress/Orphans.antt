-- ===== src/Controller/Ingress/Orphans.antt =====
-- What becomes of the objects of an ingress whose collector does not exist.
use mdai_operator.Prelude.{
  ◌≡◌, refl, ◌∙◌, ℕ, String, List, [], ◌∷◌, ◌++◌, some, Bool, false, ◌==◌, arith, Bool-cases, inl,
  inr,
}
use mdai_operator.Api.{MdaiIngress, IngressService}
use mdai_operator.Naming.Names
use mdai_operator.Webhook.Ingress.{default_ingress, default_service}
use mdai_operator.Controller.Desired.{
  Sent, reconcile_desired_objects, configure_all, after_loop, delete_objects, pruned,
}
use mdai_operator.Controller.Desired.Pruning.{deleted, deleted-delete_objects}
use mdai_operator.Manifests.Filtering.{delete_others, delete_from_end}
use mdai_operator.Manifests.Ports.{CollectorPort, merge_ports}
use mdai_operator.Manifests.Services.{
  Otelcol, ports_found, skipped, built, is_grpc, is_wanted, service_of, from_ports, grpc_service_of,
  non_grpc_service_of,
}
use mdai_operator.Manifests.Rules.{PathsAnswer, paths_found, ingress_of, ingress_aws}
use mdai_operator.Controller.Ingress.{
  fetched, missing, no_otelcol, IngressApi, Collectors, build_collector, desired_of, owned_objects,
  finish, with_owned, with_manifests, with_otelcol, with_ingress, reconcile_ingress, collect,
  as_manifest,
}

nothing_served :
    (is_filtered : String → Bool) (keep : CollectorPort → Bool) (name : List ℕ) (i : MdaiIngress)
    (own : IngressService)
    → service_of is_filtered keep (ports_found []) name no_otelcol i (some own) ≡ skipped
unfolding service_of merge_ports delete_others delete_from_end from_ports
nothing_served is_filtered keep name i own = elim (Bool-cases (is_wanted no_otelcol i)) [
  | inl h ↦ rw h refl
  | inr h ↦ rw h refl
]

nothing_routed :
    (unicode_lower : ℕ → ℕ) (paths : Otelcol → PathsAnswer) (i : MdaiIngress)
    → paths no_otelcol ≡ paths_found []
    → ingress_of unicode_lower paths no_otelcol i ≡ skipped
unfolding ingress_of ingress_aws
nothing_routed unicode_lower paths i h = elim (Bool-cases (is_wanted no_otelcol i)) [
  | inl k ↦ rw k (rw h refl)
  | inr k ↦ rw k refl
]

module _ (env : Collectors) (i : MdaiIngress)
    (no_receivers : env.receiver_ports no_otelcol ≡ ports_found [])
    (no_ports : env.all_ports no_otelcol ≡ ports_found [])
    (no_paths : env.receiver_paths no_otelcol ≡ paths_found []) where
  build_collector-none : build_collector env no_otelcol (default_ingress i) ≡ built []
  unfolding build_collector collect as_manifest grpc_service_of non_grpc_service_of default_ingress
  build_collector-none =
      rw (nothing_routed env.unicode_lower env.receiver_paths (default_ingress i) no_paths) (
        rw no_receivers (
          rw no_ports (
            rw
              (nothing_served env.is_filtered is_grpc (Names.grpc_service env.unicode_lower [])
                (default_ingress i) (default_service "NodePort" i.grpc_service))
              refl)))

  module _ (api : IngressApi) where
    deleted-pruned :
        (r : List String × Sent) → deleted (finish env api (pruned api.objects r)).1 ≡ deleted r.1
    unfolding pruned finish
    deleted-pruned ([], sent) = refl
    deleted-pruned (e ∷ es, sent) = refl

    owned-lists :
        (services ingresses : List String)
        → api.owned_services i.namespace i.name ≡ fetched services
        → api.owned_ingresses i.namespace i.name ≡ fetched ingresses
        → owned_objects env api (default_ingress i) ≡ fetched (services ++ ingresses)
    unfolding owned_objects default_ingress
    owned-lists services ingresses h k = ground arith

    -- Suppose that an ingress with the defaults of the webhook names a collector that does not
    -- exist, that no ports are found in an empty collector, and that the owned objects can be
    -- listed. Then the reconciliation asks to delete every owned service and every owned ingress,
    -- each of them once, and nothing else, whatever the answers to the deletions are.
    pub orphans-deleted :
        (namespace name : String) (services ingresses : List String)
        → api.on_get namespace name ≡ fetched (default_ingress i)
        → (i.otel_collector == "") ≡ false
        → api.on_get_otelcol i.namespace i.otel_collector ≡ missing
        → api.owned_services i.namespace i.name ≡ fetched services
        → api.owned_ingresses i.namespace i.name ≡ fetched ingresses
        → deleted (reconcile_ingress env api namespace name).1 ≡ services ++ ingresses
    unfolding reconcile_ingress with_ingress with_otelcol with_manifests with_owned desired_of
        reconcile_desired_objects configure_all after_loop deleted default_ingress
    orphans-deleted namespace name services ingresses got named gone has_services has_ingresses =
        rw got (
          rw named (
            rw gone (
              rw build_collector-none (
                rw (owned-lists services ingresses has_services has_ingresses) (
                  deleted-pruned (delete_objects api.objects (services ++ ingresses) [])
                  ∙ deleted-delete_objects api.objects (services ++ ingresses) [])))))
