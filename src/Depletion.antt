-- ===== src/Depletion.antt =====
-- backend/app/modules/inventory/depletion
pub mod Units
pub mod Conversions
pub mod Resolver
pub mod Writer
pub mod Walker
pub mod Handler
mod Tests
