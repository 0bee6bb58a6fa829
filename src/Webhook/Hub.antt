-- ===== src/Webhook/Hub.antt =====
-- internal/webhook/v1/mdaihub_webhook.go: the validator of MdaiHub resources.
pub mod Variables
pub mod Conditions
pub mod WebhookCall
pub mod Actions
pub mod Updates
