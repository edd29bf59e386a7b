-- ===== src/Db.antt =====
-- The tenant database, one list of rows for each table, and the exceptions that the repositories
-- of backend/src/modules throw (domain/*.errors.ts of inventory, sales and purchase, and the database's).
mod Stock
mod Documents
mod Sales
mod Purchase
pub use Stock.*
pub use Documents.*
pub use Sales.*
pub use Purchase.*
use vrindavan.Base.{ℕ, suc, String, Option, List}
use vrindavan.Exec.{Exec, Result, ok}

pub record Db : Type 0 where
  pub products : List ProductRow
  pub financial_years : List FinancialYearRow
  pub sequences : List SequenceRow
  pub stock_ledger : List LedgerRow
  pub stock_balances : List BalanceRow
  pub reserved_stock : List ReservedRow
  pub blocked_stock_entries : List BlockedRow
  pub stock_transfers : List TransferRow
  pub stock_transfer_lines : List TransferLineRow
  pub stock_adjustments : List AdjustmentRow
  pub stock_adjustment_lines : List AdjustmentLineRow
  pub damaged_stock : List DamageRow
  pub damaged_stock_lines : List DamageLineRow
  pub stock_returns : List ReturnRow
  pub stock_return_lines : List ReturnLineRow
  pub physical_verifications : List VerificationRow
  pub physical_verification_lines : List VerificationLineRow
  pub gst_rates : List GstRateRow
  pub product_units : List ProductUnitRow
  pub warehouses : List WarehouseRow
  pub racks : List RackRow
  pub locations : List LocationRow
  pub product_batches : List ProductBatchRow
  pub sales : SalesDb
  pub purchase : PurchaseDb
  -- `gen_random_uuid()` draws an id that was not drawn before.
  pub next_id : ℕ

pub data Error : Type 0 where
  -- `DocumentNotFoundError`, `DocumentNotDraftError`
  document_not_found document_not_draft : ℕ → Error
  -- `InsufficientStockError`: the product's name, what is available in thousandths, and
  -- what is required in millionths of them: the product of a quantity and a factor, unrounded
  insufficient_stock : String → ℕ → ℕ → Error
  -- `InvalidAllocationError`, about an invoice, or the payment itself
  invalid_allocation : Option ℕ → Error
  -- `OpeningStockAlreadyPostedError`
  opening_stock_already_posted : ℕ → Error
  -- `InternalServerErrorException` of document-numbering.helper.ts
  no_current_financial_year : Error
  -- a CHECK constraint of the database failed
  check_violation : Error
  -- a UNIQUE constraint or a REFERENCES of the database failed
  unique_violation foreign_key_violation : Error
  -- `executeTakeFirstOrThrow` found no row
  no_result : Error

-- The time of a call: `new Date()` and `now()`, and `current_date`.
pub record Clock : Type 0 where
  pub now : ℕ
  pub today : ℕ

abbrev pub Trx : Type 0 → Type 0
Trx = Exec Db Error

abbrev pub gen_random_uuid : Trx ℕ
gen_random_uuid db = (ok db.next_id, record db { next_id = suc db.next_id })
