-- ===== src/Controller/Hub.antt =====
-- internal/controller/hub_adapter.go: the adapter of MdaiHub resources.
pub mod Requeue
pub mod Values
pub mod Env
pub mod Requests
pub mod Restart
pub mod Sync
pub mod Consistency
pub mod Alerts
