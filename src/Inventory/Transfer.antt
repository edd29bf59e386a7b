-- ===== src/Inventory/Transfer.antt =====
-- Stock transfers (backend/src/modules/inventory: domain/stock-transfer.entity.ts,
-- infrastructure/stock-transfer.kysely-repository.ts).
pub mod Approval
pub mod Created
pub mod Returns
use vrindavan.Base.{ℕ, String, Bool, true, false, Option, none, some, List, get_or}
use vrindavan.Exec.{◌>>=◌, ◌>>◌}
use vrindavan.Db.{
  DocumentType, ReferenceType, Trx, Clock, Dims, TransferRow, TransferLineRow, TransferStatus,
  transfer_in, transfer_out,
}
use vrindavan.Tables.{stock_transfers, stock_transfer_lines}
use vrindavan.Stock.Posting.{PostMovementInput, get_live_balance, cost_of, post_stock_movement}
use vrindavan.Inventory.Document.{
  Document, Loaded, find_all, find_document, insert_row, create_document, approve_document,
  delete_document,
}

pub record CreateStockTransferLineProps : Type 0 where
  pub product_id : ℕ
  pub batch_id : Option ℕ
  pub from_rack_id : Option ℕ
  pub from_location_id : Option ℕ
  pub to_rack_id : Option ℕ
  pub to_location_id : Option ℕ
  pub quantity : ℕ

pub record CreateStockTransferProps : Type 0 where
  pub from_warehouse_id : ℕ
  pub to_warehouse_id : ℕ
  pub transfer_date : Option ℕ
  pub remarks : Option String
  pub lines : List CreateStockTransferLineProps

abbrev pub is_draft : TransferStatus → Bool
is_draft TransferStatus.draft = true
is_draft TransferStatus.in_transit = false
is_draft TransferStatus.completed = false
is_draft TransferStatus.cancelled = false

abbrev pub document : Document TransferRow TransferLineRow
document = record {
  headers = stock_transfers;
  line_rows = stock_transfer_lines;
  parent_of = λ l. l.transfer_id;
  is_draft = λ h. is_draft h.status;
  date_of = λ h. h.transfer_date;
  document_type = DocumentType.stock_transfer;
  prefix = "TRF";
}

abbrev pub StockTransfer : Type 0
StockTransfer = Loaded TransferRow TransferLineRow

unfoldable pub find_transfers : Trx (List StockTransfer)
unfolding find_all
find_transfers = find_all document

unfoldable pub find_transfer : ℕ → Trx (Option StockTransfer)
unfolding find_document
find_transfer = find_document document

unfoldable pub line_values : TransferRow → CreateStockTransferLineProps → ℕ → TransferLineRow
line_values header line id = record {
  id = id;
  transfer_id = header.id;
  product_id = line.product_id;
  batch_id = line.batch_id;
  from_rack_id = line.from_rack_id;
  from_location_id = line.from_location_id;
  to_rack_id = line.to_rack_id;
  to_location_id = line.to_location_id;
  quantity = line.quantity;
}

unfoldable pub insert_line : TransferRow → CreateStockTransferLineProps → Trx TransferLineRow
unfolding line_values
insert_line header line = insert_row document stock_transfer_lines (line_values header line)

unfoldable pub header_values :
    Clock → CreateStockTransferProps → Option ℕ → List ℕ → ℕ → TransferRow
header_values clock props created_by number id = record {
  id = id;
  transfer_number = number;
  transfer_date = get_or props.transfer_date clock.today;
  from_warehouse_id = props.from_warehouse_id;
  to_warehouse_id = props.to_warehouse_id;
  status = TransferStatus.draft;
  remarks = props.remarks;
  created_by = created_by;
  approved_by = none;
  approved_at = none;
  created_at = clock.now;
  updated_at = clock.now;
}

unfoldable pub create_transfer : Clock → CreateStockTransferProps → Option ℕ → Trx StockTransfer
unfolding create_document header_values insert_line
create_transfer clock props created_by =
    create_document document (header_values clock props created_by) props.lines insert_line

unfoldable pub source_dims : TransferRow → TransferLineRow → Dims
source_dims header line = record {
  product_id = line.product_id;
  warehouse_id = header.from_warehouse_id;
  rack_id = line.from_rack_id;
  location_id = line.from_location_id;
  batch_id = line.batch_id;
}

unfoldable pub target_dims : TransferRow → TransferLineRow → Dims
target_dims header line = record {
  product_id = line.product_id;
  warehouse_id = header.to_warehouse_id;
  rack_id = line.to_rack_id;
  location_id = line.to_location_id;
  batch_id = line.batch_id;
}

unfoldable pub movement_out : TransferRow → TransferLineRow → ℕ → PostMovementInput
unfolding source_dims
movement_out header line unit_cost = record {
  dims = source_dims header line;
  movement_type = transfer_out;
  qty_in = none;
  qty_out = some line.quantity;
  unit_cost = some unit_cost;
  reference_type = ReferenceType.stock_transfer;
  reference_id = header.id;
  reference_line_id = some line.id;
  remarks = none;
  created_by = none;
}

unfoldable pub movement_in : TransferRow → TransferLineRow → ℕ → PostMovementInput
unfolding target_dims
movement_in header line unit_cost = record {
  dims = target_dims header line;
  movement_type = transfer_in;
  qty_in = some line.quantity;
  qty_out = none;
  unit_cost = some unit_cost;
  reference_type = ReferenceType.stock_transfer;
  reference_id = header.id;
  reference_line_id = some line.id;
  remarks = none;
  created_by = none;
}

unfoldable pub post_line : Clock → TransferRow → TransferLineRow → Trx (Unit {0})
unfolding movement_out movement_in get_live_balance
post_line clock header line = do
  source_balance ← get_live_balance (source_dims header line)
  let unit_cost = cost_of source_balance
  post_stock_movement clock (movement_out header line unit_cost)
  post_stock_movement clock (movement_in header line unit_cost)

unfoldable pub complete : Clock → Option ℕ → TransferRow → TransferRow
complete clock approved_by h = record h {
  status = TransferStatus.completed;
  approved_by = approved_by;
  approved_at = some clock.now;
  updated_at = clock.now;
}

unfoldable pub approve_transfer : Clock → Option ℕ → ℕ → Trx StockTransfer
unfolding approve_document post_line complete
approve_transfer clock approved_by =
    approve_document document (post_line clock) (complete clock approved_by)

unfoldable pub delete_transfer : ℕ → Trx Bool
unfolding delete_document
delete_transfer = delete_document document
