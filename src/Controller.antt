-- ===== src/Controller.antt =====
-- The controllers of internal/controller.
pub mod Operation
pub mod Lifecycle
pub mod Events
pub mod Hub
pub mod Replay
pub mod Desired
pub mod Ingress
pub mod Collector
pub mod Observer
pub mod Adapters
pub mod Workloads
pub mod ConfigMaps
