-- ===== src/Db/Stock.antt =====
-- The rows of the stock tables (database/migrations/tenant_template/003_inventory.sql) and of the
-- master tables that stock documents read. Ids are numbers, 0 the nil uuid; a `numeric(18,3)` is
-- counted in thousandths and a `numeric(18,4)` in ten-thousandths.
use vrindavan.Base.{ℕ, String, Option, Bool}

-- `MovementType` of stock-posting.helper.ts.
pub data MovementType : Type 0 where
  opening_stock purchase_in sales_out transfer_in transfer_out : MovementType
  adjustment_in adjustment_out return_in return_out damage_out : MovementType
  verification_adjustment_in verification_adjustment_out : MovementType

-- The type of document that a ledger row refers to.
pub data ReferenceType : Type 0 where
  product stock_transfer stock_adjustment damaged_stock : ReferenceType
  stock_return physical_verification : ReferenceType
  delivery_challan sales_return grn purchase_return : ReferenceType

-- `LiveBalanceDimensions`: the columns by which a balance is keyed.
pub record Dims : Type 0 where
  pub product_id : ℕ
  pub warehouse_id : ℕ
  pub rack_id : Option ℕ
  pub location_id : Option ℕ
  pub batch_id : Option ℕ

pub record LedgerRow : Type 0 where
  pub id : ℕ
  pub dims : Dims
  pub open dims use *
  pub movement_type : MovementType
  pub qty_in : ℕ
  pub qty_out : ℕ
  pub unit_cost : ℕ
  pub reference_type : ReferenceType
  pub reference_id : ℕ
  pub reference_line_id : Option ℕ
  pub remarks : Option String
  pub created_by : Option ℕ
  pub created_at : ℕ

pub record BalanceRow : Type 0 where
  pub id : ℕ
  pub dims : Dims
  pub open dims use *
  pub quantity : ℕ
  pub reserved_quantity : ℕ
  pub blocked_quantity : ℕ
  pub average_cost : ℕ

pub data ReservedStatus : Type 0 where
  active released consumed expired : ReservedStatus

pub record ReservedRow : Type 0 where
  pub id : ℕ
  pub product_id : ℕ
  pub warehouse_id : ℕ
  pub batch_id : Option ℕ
  pub quantity : ℕ
  pub reference_type : String
  pub reference_id : ℕ
  pub reserved_by : Option ℕ
  pub reserved_at : ℕ
  pub expires_at : ℕ
  pub status : ReservedStatus
  pub released_at : Option ℕ

pub data BlockedStatus : Type 0 where
  blocked released : BlockedStatus

pub record BlockedRow : Type 0 where
  pub id : ℕ
  pub product_id : ℕ
  pub warehouse_id : ℕ
  pub rack_id : Option ℕ
  pub location_id : Option ℕ
  pub batch_id : Option ℕ
  pub quantity : ℕ
  pub reason : String
  pub status : BlockedStatus
  pub blocked_by : Option ℕ
  pub blocked_at : ℕ
  pub released_by : Option ℕ
  pub released_at : Option ℕ

-- The columns of `products` that stock documents and views read.
pub record ProductRow : Type 0 where
  pub id : ℕ
  pub name : String
  pub sku : String
  pub purchase_price : ℕ
  pub opening_stock : ℕ

pub record FinancialYearRow : Type 0 where
  pub id : ℕ
  pub name : String
  pub is_current : Bool

-- The values of `document_type`.
pub data DocumentType : Type 0 where
  stock_transfer stock_adjustment damaged_stock : DocumentType
  stock_return physical_verification : DocumentType
  quotation sales_order delivery_challan sales_invoice : DocumentType
  customer_payment sales_return purchase_order grn : DocumentType
  purchase_invoice supplier_payment purchase_return : DocumentType

pub record SequenceRow : Type 0 where
  pub financial_year_id : ℕ
  pub document_type : DocumentType
  pub prefix : String
  pub last_number : ℕ

pub record GstRateRow : Type 0 where
  pub id : ℕ
  -- percent, in hundredths
  pub total_rate : ℕ

pub record ProductUnitRow : Type 0 where
  pub id : ℕ
  -- `numeric(18,6)`, in millionths: base units to one of this unit
  pub conversion_factor : ℕ

-- The columns of the places that views name.
pub record WarehouseRow : Type 0 where
  pub id : ℕ
  pub name : String

pub record RackRow : Type 0 where
  pub id : ℕ
  pub name : String

pub record LocationRow : Type 0 where
  pub id : ℕ
  pub name : String

pub record ProductBatchRow : Type 0 where
  pub id : ℕ
  pub batch_number : String
  pub expiry_date : Option ℕ
