-- ===== src/Webhook.antt =====
-- pkg/webhooks: the admission webhooks.
pub mod Field
pub mod Volume
pub mod Network
pub mod Instance
pub mod Machine
pub mod Mutate
