-- ===== src/Inventory/Adjustment.antt =====
-- StockAdjustment documents (backend/src/modules/inventory: domain/stock-adjustment.entity.ts,
-- infrastructure/stock-adjustment.kysely-repository.ts).
pub mod Approval
pub mod Created
pub mod Returns
use vrindavan.Base.{
  ℕ, ◌-◌, String, Bool, true, false, Option, none, some, List, get_or, ltb, ◌==◌, if◌then◌else◌,
}
use vrindavan.Exec.{◌>>=◌, pure}
use vrindavan.Db.{
  DocumentType, ReferenceType, MovementType, Trx, Clock, Dims, AdjustmentRow, AdjustmentLineRow,
  ApprovalStatus,
}
use vrindavan.Tables.{stock_adjustments, stock_adjustment_lines}
use vrindavan.Stock.Posting.{
  PostMovementInput, get_live_balance, quantity_of, cost_of, post_stock_movement,
}
use vrindavan.Inventory.Document.{
  Document, Loaded, find_all, find_document, insert_row, create_document, approve_document,
  delete_document,
}

pub record CreateStockAdjustmentLineProps : Type 0 where
  pub product_id : ℕ
  pub batch_id : Option ℕ
  pub rack_id : Option ℕ
  pub location_id : Option ℕ
  pub adjusted_quantity : ℕ
  pub remarks : Option String

pub record CreateStockAdjustmentProps : Type 0 where
  pub warehouse_id : ℕ
  pub adjustment_date : Option ℕ
  pub reason : Option String
  pub lines : List CreateStockAdjustmentLineProps

abbrev pub is_draft : ApprovalStatus → Bool
is_draft ApprovalStatus.draft = true
is_draft ApprovalStatus.approved = false
is_draft ApprovalStatus.cancelled = false

abbrev pub document : Document AdjustmentRow AdjustmentLineRow
document = record {
  headers = stock_adjustments;
  line_rows = stock_adjustment_lines;
  parent_of = λ l. l.adjustment_id;
  is_draft = λ h. is_draft h.status;
  date_of = λ h. h.adjustment_date;
  document_type = DocumentType.stock_adjustment;
  prefix = "ADJ";
}

abbrev pub StockAdjustment : Type 0
StockAdjustment = Loaded AdjustmentRow AdjustmentLineRow

unfoldable pub find_adjustments : Trx (List StockAdjustment)
unfolding find_all
find_adjustments = find_all document

unfoldable pub find_adjustment : ℕ → Trx (Option StockAdjustment)
unfolding find_document
find_adjustment = find_document document

unfoldable pub props_dims : ℕ → CreateStockAdjustmentLineProps → Dims
props_dims warehouse_id line = record {
  product_id = line.product_id;
  warehouse_id = warehouse_id;
  rack_id = line.rack_id;
  location_id = line.location_id;
  batch_id = line.batch_id;
}

unfoldable pub line_values :
    AdjustmentRow → CreateStockAdjustmentLineProps → ℕ → ℕ → AdjustmentLineRow
line_values header line system_quantity id = record {
  id = id;
  adjustment_id = header.id;
  product_id = line.product_id;
  batch_id = line.batch_id;
  rack_id = line.rack_id;
  location_id = line.location_id;
  system_quantity = system_quantity;
  adjusted_quantity = line.adjusted_quantity;
  remarks = line.remarks;
}

-- A line records the quantity on hand when the draft was made.
unfoldable pub insert_line : AdjustmentRow → CreateStockAdjustmentLineProps → Trx AdjustmentLineRow
unfolding get_live_balance line_values props_dims
insert_line header line = do
  live_balance ← get_live_balance (props_dims header.warehouse_id line)
  insert_row document stock_adjustment_lines (line_values header line (quantity_of live_balance))

unfoldable pub header_values :
    Clock → CreateStockAdjustmentProps → Option ℕ → List ℕ → ℕ → AdjustmentRow
header_values clock props created_by number id = record {
  id = id;
  adjustment_number = number;
  adjustment_date = get_or props.adjustment_date clock.today;
  warehouse_id = props.warehouse_id;
  reason = props.reason;
  status = ApprovalStatus.draft;
  created_by = created_by;
  approved_by = none;
  approved_at = none;
  created_at = clock.now;
  updated_at = clock.now;
}

unfoldable pub create_adjustment :
    Clock → CreateStockAdjustmentProps → Option ℕ → Trx StockAdjustment
unfolding create_document header_values insert_line
create_adjustment clock props created_by =
    create_document document (header_values clock props created_by) props.lines insert_line

unfoldable pub line_dims : AdjustmentRow → AdjustmentLineRow → Dims
line_dims header line = record {
  product_id = line.product_id;
  warehouse_id = header.warehouse_id;
  rack_id = line.rack_id;
  location_id = line.location_id;
  batch_id = line.batch_id;
}

-- The signed difference `diff` is `target - live`: what comes in where it is positive, what goes
-- out where it is negative.
unfoldable pub movement : AdjustmentRow → AdjustmentLineRow → ℕ → ℕ → PostMovementInput
unfolding line_dims
movement header line live unit_cost = record {
  dims = line_dims header line;
  movement_type =
      if ltb live line.adjusted_quantity
      then MovementType.adjustment_in
      else MovementType.adjustment_out;
  qty_in = if ltb live line.adjusted_quantity then some (line.adjusted_quantity - live) else none;
  qty_out = if ltb line.adjusted_quantity live then some (live - line.adjusted_quantity) else none;
  unit_cost = some unit_cost;
  reference_type = ReferenceType.stock_adjustment;
  reference_id = header.id;
  reference_line_id = some line.id;
  remarks = none;
  created_by = none;
}

-- A line whose target is already met posts nothing (`if (diff === 0) continue`).
unfoldable pub post_line : Clock → AdjustmentRow → AdjustmentLineRow → Trx (Unit {0})
unfolding movement get_live_balance
post_line clock header line = do
  live_balance ← get_live_balance (line_dims header line)
  let live = quantity_of live_balance
  if line.adjusted_quantity == live
      then pure tt
      else post_stock_movement clock (movement header line live (cost_of live_balance))

unfoldable pub stamp_approved : Clock → Option ℕ → AdjustmentRow → AdjustmentRow
stamp_approved clock approved_by h = record h {
  status = ApprovalStatus.approved;
  approved_by = approved_by;
  approved_at = some clock.now;
  updated_at = clock.now;
}

unfoldable pub approve_adjustment : Clock → Option ℕ → ℕ → Trx StockAdjustment
unfolding approve_document post_line stamp_approved
approve_adjustment clock approved_by =
    approve_document document (post_line clock) (stamp_approved clock approved_by)

unfoldable pub delete_adjustment : ℕ → Trx Bool
unfolding delete_document
delete_adjustment = delete_document document
