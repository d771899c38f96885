-- ===== src/Inventory.antt =====
-- backend/app/modules/inventory: services.py and idempotency.py
pub mod OnHand
pub mod Stock
pub mod Opening
pub mod Count
pub mod Receipt
pub mod Resolver
pub mod Idempotency
mod Tests
