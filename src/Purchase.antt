-- ===== src/Purchase.antt =====
-- The purchase module (backend/src/modules/purchase).
pub mod Order
pub mod Grn
pub mod Invoice
pub mod Payment
pub mod Return
pub mod Billing
pub mod System
pub mod Outstanding
pub mod Created
pub mod Services
