-- ===== src/Trade.antt =====
-- What backend/src/modules/sales and backend/src/modules/purchase have in common: prices of lines,
-- documents that are priced when they are made, changes of status, notes that fulfil an order, and
-- payments that are allocated to invoices. Each module fills in its tables.
pub mod Double
pub mod Pricing
pub mod Document
pub mod Fulfilment
pub mod Payment
pub mod Services
pub mod Outstanding
pub mod Spares
