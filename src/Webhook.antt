-- ===== src/Webhook.antt =====
-- internal/webhook/v1alpha/conduit_webhook.go: the admission webhook of the Conduit resource.
pub mod Object
pub mod Defaulter
pub mod Validator
