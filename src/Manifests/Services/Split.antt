-- ===== src/Manifests/Services/Split.antt =====
-- Which ports the two services have.
use mdai_operator.Prelude.{◌≡◌, refl, ℕ, String, List, [], ◌∷◌, Option, none, some, Bool, true}
use mdai_operator.Api.{MdaiIngress, IngressService}
use mdai_operator.Webhook.Ingress.{default_ingress, default_service}
use mdai_operator.Manifests.Filtering.{filter, delete_others-filter}
use mdai_operator.Manifests.Ports.{CollectorPort, merge_ports}
use mdai_operator.Manifests.Services.{
  Otelcol, PortsAnswer, ports_found, Built, skipped, panicked, build_failed, built, BuiltService,
  is_grpc, is_not_grpc, is_wanted, from_ports, service_of, grpc_service_of, non_grpc_service_of,
}

-- The ports that are offered: none without a service, and no answer after an error or a panic.
unfoldable pub offered : Built BuiltService → Option (List CollectorPort)
offered skipped = some []
offered panicked = none
offered (build_failed e) = none
offered (built s) = some s.ports

module _ (is_filtered : String → Bool) where
  offered-from_ports :
      (otelcol : Otelcol) (own : IngressService) (name : List ℕ) (ps : List CollectorPort)
      → offered (from_ports is_filtered otelcol own name (some ps)) ≡ some ps
  unfolding offered from_ports
  offered-from_ports otelcol own name [] = refl
  offered-from_ports otelcol own name (p ∷ ps) = refl

  offered-service_of :
      (keep : CollectorPort → Bool) (name : List ℕ) (otelcol : Otelcol) (ingress : MdaiIngress)
      (own : IngressService) (inferred : List CollectorPort)
      → is_wanted otelcol ingress ≡ true
      → offered (service_of is_filtered keep (ports_found inferred) name otelcol ingress (some own))
        ≡ some (filter keep (merge_ports otelcol.ports inferred))
  unfolding service_of
  offered-service_of keep name otelcol ingress own inferred h = rw h (
      rw (delete_others-filter keep (merge_ports otelcol.ports inferred))
        (offered-from_ports otelcol own name _))

  module _ (unicode_lower : ℕ → ℕ) (receiver_ports all_ports : Otelcol → PortsAnswer) where
    -- For an ingress with the defaults of the webhook, and a collector whose ports can be read: if
    -- the services are wanted at all, the gRPC service offers just the gRPC ports among those of the
    -- specification and the receivers, the other service just the others among all ports, in their
    -- order, and neither is built by a nil dereference or an index out of range.
    pub offered-split :
        (otelcol : Otelcol) (ingress : MdaiIngress) (received every : List CollectorPort)
        → receiver_ports otelcol ≡ ports_found received
        → all_ports otelcol ≡ ports_found every
        → is_wanted otelcol (default_ingress ingress) ≡ true
        → (offered (
              grpc_service_of is_filtered unicode_lower receiver_ports all_ports otelcol
                (default_ingress ingress))
            ≡ some (filter is_grpc (merge_ports otelcol.ports received)))
          × (offered (
                non_grpc_service_of is_filtered unicode_lower receiver_ports all_ports otelcol
                  (default_ingress ingress))
              ≡ some (filter is_not_grpc (merge_ports otelcol.ports every)))
    unfolding grpc_service_of non_grpc_service_of default_ingress
    offered-split otelcol ingress received every h k w = (
      rw h (
          offered-service_of is_grpc _ otelcol (default_ingress ingress)
            (default_service "NodePort" ingress.grpc_service) received w),
      rw k (
          offered-service_of is_not_grpc _ otelcol (default_ingress ingress)
            (default_service "LoadBalancer" ingress.non_grpc_service) every w),
    )
