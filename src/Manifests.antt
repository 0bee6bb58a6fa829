-- ===== src/Manifests.antt =====
-- internal/manifests and the ingress configuration of api/v1/mdaiingress_config.go: the objects that
-- an ingress resource wants for the collector that it names.
pub mod Filtering
pub mod Ports
pub mod Labels
pub mod Services
pub mod Rules
pub mod Mutation
