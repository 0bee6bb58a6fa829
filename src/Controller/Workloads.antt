-- ===== src/Controller/Workloads.antt =====
-- The Deployments and Services of internal/controller: what the functions that are given to
-- controllerutil.CreateOrUpdate make of the object that the API server has, or of a new one.
pub mod Shared
pub mod Collector
pub mod Observer
pub mod Replay
pub mod Dal
pub mod Access
pub mod All
pub mod Selected
pub mod Stable
pub mod Targets
