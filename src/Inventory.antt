-- ===== src/Inventory.antt =====
-- The inventory module (backend/src/modules/inventory): its documents, entries, services and histories.
pub mod Document
pub mod Transfer
pub mod Adjustment
pub mod Verification
pub mod Damage
pub mod Return
pub mod OpeningStock
pub mod Reserved
pub mod Blocked
pub mod Once
pub mod Ledger
pub mod CurrentStock
pub mod System
pub mod Services
