-- ===== src/Builder.antt =====
-- internal/builder: the builders of containers, deployments and services, and the parts of the
-- Kubernetes types that the program sets. A nil map is `none`.
pub mod Maps
pub mod Pods
pub mod Deployments
pub mod Services
pub mod Tolerations
pub mod Config
