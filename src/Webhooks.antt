-- ===== src/Webhooks.antt =====
-- packages/webhooks: the parts of the webhook door.
pub mod Verify
pub mod Receiver
pub mod Tests
