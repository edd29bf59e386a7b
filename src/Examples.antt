-- ===== src/Examples.antt =====
-- A small company for the examples: two warehouses, one product, and a draft of every document.
pub mod Approvals
pub mod Prices
pub mod Posting
pub mod Holds
pub mod Answers
pub mod Admins
pub mod Drafts
pub mod Sales
pub mod Payments
pub mod Orders
pub mod Purchase
pub mod Trading
pub mod Listings
use vrindavan.Base.{ℕ, Option, none, some, List, [], ◌∷◌, true}
use vrindavan.Db.{
  Db, SalesDb, PurchaseDb, Clock, Dims, ProductRow, FinancialYearRow, LedgerRow, BalanceRow,
  MovementType, ReferenceType, TransferRow, TransferLineRow, TransferStatus, AdjustmentRow,
  AdjustmentLineRow, ApprovalStatus, DamageRow, DamageLineRow, ReturnRow, ReturnLineRow,
  VerificationRow, VerificationLineRow, VerificationStatus,
}

abbrev pub noon : Clock
noon = record { now = 1200; today = 100 }

-- The product's stock in a warehouse, on no rack.
abbrev pub at : ℕ → Dims
at warehouse = record {
  product_id = 1;
  warehouse_id = warehouse;
  rack_id = none;
  location_id = none;
  batch_id = none;
}

abbrev pub tea : ProductRow
tea = record { id = 1; name = "Tea"; sku = "T-1"; purchase_price = 400; opening_stock = 100 }

abbrev pub this_year : FinancialYearRow
this_year = record { id = 5; name = "2025-26"; is_current = true }

abbrev pub no_sales : SalesDb
no_sales = record {
  customers = [];
  quotations = [];
  quotation_lines = [];
  sales_orders = [];
  sales_order_lines = [];
  delivery_challans = [];
  delivery_challan_lines = [];
  sales_invoices = [];
  sales_invoice_lines = [];
  customer_payments = [];
  customer_payment_allocations = [];
  sales_returns = [];
  sales_return_lines = [];
}

abbrev pub no_purchase : PurchaseDb
no_purchase = record {
  suppliers = [];
  purchase_orders = [];
  purchase_order_lines = [];
  goods_received_notes = [];
  grn_lines = [];
  purchase_invoices = [];
  purchase_invoice_lines = [];
  supplier_payments = [];
  supplier_payment_allocations = [];
  purchase_returns = [];
  purchase_return_lines = [];
}

-- A company before any movement.
abbrev pub opened : Db
opened = record {
  products = tea ∷ [];
  financial_years = this_year ∷ [];
  sequences = [];
  stock_ledger = [];
  stock_balances = [];
  reserved_stock = [];
  blocked_stock_entries = [];
  stock_transfers = [];
  stock_transfer_lines = [];
  stock_adjustments = [];
  stock_adjustment_lines = [];
  damaged_stock = [];
  damaged_stock_lines = [];
  stock_returns = [];
  stock_return_lines = [];
  physical_verifications = [];
  physical_verification_lines = [];
  gst_rates = [];
  product_units = [];
  warehouses = record { id = 1; name = "Main" } ∷ record { id = 2; name = "Yard" } ∷ [];
  racks = [];
  locations = [];
  product_batches = [];
  sales = no_sales;
  purchase = no_purchase;
  next_id = 1000;
}

abbrev pub opening : LedgerRow
opening = record {
  id = 900;
  dims = at 1;
  movement_type = MovementType.opening_stock;
  qty_in = 100;
  qty_out = 0;
  unit_cost = 400;
  reference_type = ReferenceType.product;
  reference_id = 1;
  reference_line_id = none;
  remarks = none;
  created_by = none;
  created_at = 1000;
}

abbrev pub shelf : BalanceRow
shelf = record {
  id = 901;
  dims = at 1;
  quantity = 100;
  reserved_quantity = 20;
  blocked_quantity = 10;
  average_cost = 400;
}

abbrev pub transfer : TransferRow
transfer = record {
  id = 10;
  transfer_number = [];
  transfer_date = 100;
  from_warehouse_id = 1;
  to_warehouse_id = 2;
  status = TransferStatus.draft;
  remarks = none;
  created_by = none;
  approved_by = none;
  approved_at = none;
  created_at = 1100;
  updated_at = 1100;
}

abbrev pub transfer_line : TransferLineRow
transfer_line = record {
  id = 11;
  transfer_id = 10;
  product_id = 1;
  batch_id = none;
  from_rack_id = none;
  from_location_id = none;
  to_rack_id = none;
  to_location_id = none;
  quantity = 30;
}

abbrev pub adjustment : AdjustmentRow
adjustment = record {
  id = 20;
  adjustment_number = [];
  adjustment_date = 100;
  warehouse_id = 1;
  reason = none;
  status = ApprovalStatus.draft;
  created_by = none;
  approved_by = none;
  approved_at = none;
  created_at = 1100;
  updated_at = 1100;
}

abbrev pub adjustment_line : AdjustmentLineRow
adjustment_line = record {
  id = 21;
  adjustment_id = 20;
  product_id = 1;
  batch_id = none;
  rack_id = none;
  location_id = none;
  system_quantity = 100;
  adjusted_quantity = 90;
  remarks = none;
}

abbrev pub damage : DamageRow
damage = record {
  id = 30;
  damage_number = [];
  damage_date = 100;
  warehouse_id = 1;
  reason = none;
  status = ApprovalStatus.draft;
  created_by = none;
  approved_by = none;
  approved_at = none;
  created_at = 1100;
  updated_at = 1100;
}

abbrev pub damage_line : DamageLineRow
damage_line = record {
  id = 31;
  damage_id = 30;
  product_id = 1;
  batch_id = none;
  rack_id = none;
  location_id = none;
  quantity = 5;
  remarks = none;
}

abbrev pub stock_return : ReturnRow
stock_return = record {
  id = 40;
  return_number = [];
  return_date = 100;
  warehouse_id = 1;
  reason = none;
  status = ApprovalStatus.draft;
  created_by = none;
  approved_by = none;
  approved_at = none;
  created_at = 1100;
  updated_at = 1100;
}

abbrev pub return_line : ReturnLineRow
return_line = record {
  id = 41;
  return_id = 40;
  product_id = 1;
  batch_id = none;
  rack_id = none;
  location_id = none;
  quantity = 7;
  remarks = none;
}

abbrev pub verification : VerificationRow
verification = record {
  id = 50;
  verification_number = [];
  verification_date = 100;
  warehouse_id = 1;
  status = VerificationStatus.draft;
  created_by = none;
  completed_at = none;
  created_at = 1100;
  updated_at = 1100;
}

abbrev pub verification_line : VerificationLineRow
verification_line = record {
  id = 51;
  verification_id = 50;
  product_id = 1;
  batch_id = none;
  rack_id = none;
  location_id = none;
  system_quantity = 100;
  counted_quantity = 104;
  remarks = none;
}

-- The company with stock on the shelf and its drafts.
abbrev pub shop : Db
shop = record opened {
  stock_ledger = opening ∷ [];
  stock_balances = shelf ∷ [];
  stock_transfers = transfer ∷ [];
  stock_transfer_lines = transfer_line ∷ [];
  stock_adjustments = adjustment ∷ [];
  stock_adjustment_lines = adjustment_line ∷ [];
  damaged_stock = damage ∷ [];
  damaged_stock_lines = damage_line ∷ [];
  stock_returns = stock_return ∷ [];
  stock_return_lines = return_line ∷ [];
  physical_verifications = verification ∷ [];
  physical_verification_lines = verification_line ∷ [];
}
