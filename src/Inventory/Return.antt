-- ===== src/Inventory/Return.antt =====
-- StockReturn documents (backend/src/modules/inventory: domain/stock-return.entity.ts,
-- infrastructure/stock-return.kysely-repository.ts).
pub mod Approval
pub mod Created
pub mod Returns
use vrindavan.Base.{
  ℕ, ◌*◌, String, Bool, true, false, Option, none, some, List, get_or, ◌==◌, find_where,
}
use vrindavan.Exec.{◌>>=◌, gets}
use vrindavan.Db.{
  DocumentType, ReferenceType, MovementType, Db, Trx, Clock, Dims, ReturnRow, ReturnLineRow,
  ApprovalStatus,
}
use vrindavan.Tables.{stock_returns, stock_return_lines}
use vrindavan.Stock.Posting.{PostMovementInput, LiveBalance, get_live_balance, post_stock_movement}
use vrindavan.Inventory.Document.{
  Document, Loaded, find_all, find_document, insert_row, create_document, approve_document,
  delete_document,
}

pub record CreateStockReturnLineProps : Type 0 where
  pub product_id : ℕ
  pub batch_id : Option ℕ
  pub rack_id : Option ℕ
  pub location_id : Option ℕ
  pub quantity : ℕ
  pub remarks : Option String

pub record CreateStockReturnProps : Type 0 where
  pub warehouse_id : ℕ
  pub return_date : Option ℕ
  pub reason : Option String
  pub lines : List CreateStockReturnLineProps

abbrev pub is_draft : ApprovalStatus → Bool
is_draft ApprovalStatus.draft = true
is_draft ApprovalStatus.approved = false
is_draft ApprovalStatus.cancelled = false

abbrev pub document : Document ReturnRow ReturnLineRow
document = record {
  headers = stock_returns;
  line_rows = stock_return_lines;
  parent_of = λ l. l.return_id;
  is_draft = λ h. is_draft h.status;
  date_of = λ h. h.return_date;
  document_type = DocumentType.stock_return;
  prefix = "RET";
}

abbrev pub StockReturn : Type 0
StockReturn = Loaded ReturnRow ReturnLineRow

unfoldable pub find_returns : Trx (List StockReturn)
unfolding find_all
find_returns = find_all document

unfoldable pub find_return : ℕ → Trx (Option StockReturn)
unfolding find_document
find_return = find_document document

unfoldable pub line_values : ReturnRow → CreateStockReturnLineProps → ℕ → ReturnLineRow
line_values header line id = record {
  id = id;
  return_id = header.id;
  product_id = line.product_id;
  batch_id = line.batch_id;
  rack_id = line.rack_id;
  location_id = line.location_id;
  quantity = line.quantity;
  remarks = line.remarks;
}

unfoldable pub insert_line : ReturnRow → CreateStockReturnLineProps → Trx ReturnLineRow
unfolding line_values
insert_line header line = insert_row document stock_return_lines (line_values header line)

unfoldable pub header_values : Clock → CreateStockReturnProps → Option ℕ → List ℕ → ℕ → ReturnRow
header_values clock props created_by number id = record {
  id = id;
  return_number = number;
  return_date = get_or props.return_date clock.today;
  warehouse_id = props.warehouse_id;
  reason = props.reason;
  status = ApprovalStatus.draft;
  created_by = created_by;
  approved_by = none;
  approved_at = none;
  created_at = clock.now;
  updated_at = clock.now;
}

unfoldable pub create_return : Clock → CreateStockReturnProps → Option ℕ → Trx StockReturn
unfolding create_document header_values insert_line
create_return clock props created_by =
    create_document document (header_values clock props created_by) props.lines insert_line

unfoldable pub line_dims : ReturnRow → ReturnLineRow → Dims
line_dims header line = record {
  product_id = line.product_id;
  warehouse_id = header.warehouse_id;
  rack_id = line.rack_id;
  location_id = line.location_id;
  batch_id = line.batch_id;
}

unfoldable pub movement : ReturnRow → ReturnLineRow → ℕ → PostMovementInput
unfolding line_dims
movement header line unit_cost = record {
  dims = line_dims header line;
  movement_type = MovementType.return_in;
  qty_in = some line.quantity;
  qty_out = none;
  unit_cost = some unit_cost;
  reference_type = ReferenceType.stock_return;
  reference_id = header.id;
  reference_line_id = some line.id;
  remarks = none;
  created_by = none;
}

-- The purchase price, in hundredths, as a cost, in ten-thousandths, where no balance gives a cost; 0 where the product is gone too.
unfoldable pub purchase_price : ℕ → Db → ℕ
purchase_price id db = elim (find_where (λ p. p.id == id) db.products) [
  | none ↦ 0
  | some p ↦ p.purchase_price * 100
]

unfoldable pub return_cost : Option LiveBalance → ℕ → Db → ℕ
unfolding purchase_price
return_cost (some b) product_id db = b.average_cost
return_cost none product_id db = purchase_price product_id db

unfoldable pub post_line : Clock → ReturnRow → ReturnLineRow → Trx (Unit {0})
unfolding movement get_live_balance return_cost
post_line clock header line = do
  live_balance ← get_live_balance (line_dims header line)
  unit_cost ← gets (return_cost live_balance line.product_id)
  post_stock_movement clock (movement header line unit_cost)

unfoldable pub stamp_approved : Clock → Option ℕ → ReturnRow → ReturnRow
stamp_approved clock approved_by h = record h {
  status = ApprovalStatus.approved;
  approved_by = approved_by;
  approved_at = some clock.now;
  updated_at = clock.now;
}

unfoldable pub approve_return : Clock → Option ℕ → ℕ → Trx StockReturn
unfolding approve_document post_line stamp_approved
approve_return clock approved_by =
    approve_document document (post_line clock) (stamp_approved clock approved_by)

unfoldable pub delete_return : ℕ → Trx Bool
unfolding delete_document
delete_return = delete_document document
