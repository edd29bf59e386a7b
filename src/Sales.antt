-- ===== src/Sales.antt =====
-- The sales module (backend/src/modules/sales).
pub mod Order
pub mod Quotation
pub mod Challan
pub mod Invoice
pub mod Payment
pub mod Return
pub mod Billing
pub mod System
pub mod Outstanding
pub mod Created
pub mod Services
