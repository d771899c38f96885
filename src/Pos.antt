-- ===== src/Pos.antt =====
-- backend/app/modules/pos
pub mod Payment
pub mod Lines
pub mod Inbox
pub mod Reconcile
pub mod Process
pub mod Webhook
mod Tests
