-- ===== src/Webhook.antt =====
-- The admission webhooks of internal/webhook/v1. A validator returns its warnings and, if it
-- refuses the resource, its error.
mod External
mod Verdicts
pub mod Replay
pub mod Hub
pub mod Collector
pub mod Ingress
pub mod Observer
pub use External.*
pub use Verdicts.*
