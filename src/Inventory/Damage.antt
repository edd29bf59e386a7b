-- ===== src/Inventory/Damage.antt =====
-- DamagedStock documents (backend/src/modules/inventory: domain/damaged-stock.entity.ts,
-- infrastructure/damaged-stock.kysely-repository.ts).
pub mod Approval
pub mod Created
pub mod Returns
use vrindavan.Base.{ℕ, String, Bool, true, false, Option, none, some, List, get_or}
use vrindavan.Exec.{◌>>=◌}
use vrindavan.Db.{
  DocumentType, ReferenceType, MovementType, Trx, Clock, Dims, DamageRow, DamageLineRow,
  ApprovalStatus,
}
use vrindavan.Tables.{damaged_stock, damaged_stock_lines}
use vrindavan.Stock.Posting.{PostMovementInput, get_live_balance, cost_of, post_stock_movement}
use vrindavan.Inventory.Document.{
  Document, Loaded, find_all, find_document, insert_row, create_document, approve_document,
  delete_document,
}

pub record CreateDamagedStockLineProps : Type 0 where
  pub product_id : ℕ
  pub batch_id : Option ℕ
  pub rack_id : Option ℕ
  pub location_id : Option ℕ
  pub quantity : ℕ
  pub remarks : Option String

pub record CreateDamagedStockProps : Type 0 where
  pub warehouse_id : ℕ
  pub damage_date : Option ℕ
  pub reason : Option String
  pub lines : List CreateDamagedStockLineProps

abbrev pub is_draft : ApprovalStatus → Bool
is_draft ApprovalStatus.draft = true
is_draft ApprovalStatus.approved = false
is_draft ApprovalStatus.cancelled = false

abbrev pub document : Document DamageRow DamageLineRow
document = record {
  headers = damaged_stock;
  line_rows = damaged_stock_lines;
  parent_of = λ l. l.damage_id;
  is_draft = λ h. is_draft h.status;
  date_of = λ h. h.damage_date;
  document_type = DocumentType.damaged_stock;
  prefix = "DMG";
}

abbrev pub DamagedStock : Type 0
DamagedStock = Loaded DamageRow DamageLineRow

unfoldable pub find_damages : Trx (List DamagedStock)
unfolding find_all
find_damages = find_all document

unfoldable pub find_damage : ℕ → Trx (Option DamagedStock)
unfolding find_document
find_damage = find_document document

unfoldable pub line_values : DamageRow → CreateDamagedStockLineProps → ℕ → DamageLineRow
line_values header line id = record {
  id = id;
  damage_id = header.id;
  product_id = line.product_id;
  batch_id = line.batch_id;
  rack_id = line.rack_id;
  location_id = line.location_id;
  quantity = line.quantity;
  remarks = line.remarks;
}

unfoldable pub insert_line : DamageRow → CreateDamagedStockLineProps → Trx DamageLineRow
unfolding line_values
insert_line header line = insert_row document damaged_stock_lines (line_values header line)

unfoldable pub header_values : Clock → CreateDamagedStockProps → Option ℕ → List ℕ → ℕ → DamageRow
header_values clock props created_by number id = record {
  id = id;
  damage_number = number;
  damage_date = get_or props.damage_date clock.today;
  warehouse_id = props.warehouse_id;
  reason = props.reason;
  status = ApprovalStatus.draft;
  created_by = created_by;
  approved_by = none;
  approved_at = none;
  created_at = clock.now;
  updated_at = clock.now;
}

unfoldable pub create_damage : Clock → CreateDamagedStockProps → Option ℕ → Trx DamagedStock
unfolding create_document header_values insert_line
create_damage clock props created_by =
    create_document document (header_values clock props created_by) props.lines insert_line

unfoldable pub line_dims : DamageRow → DamageLineRow → Dims
line_dims header line = record {
  product_id = line.product_id;
  warehouse_id = header.warehouse_id;
  rack_id = line.rack_id;
  location_id = line.location_id;
  batch_id = line.batch_id;
}

unfoldable pub movement : DamageRow → DamageLineRow → ℕ → PostMovementInput
unfolding line_dims
movement header line unit_cost = record {
  dims = line_dims header line;
  movement_type = MovementType.damage_out;
  qty_in = none;
  qty_out = some line.quantity;
  unit_cost = some unit_cost;
  reference_type = ReferenceType.damaged_stock;
  reference_id = header.id;
  reference_line_id = some line.id;
  remarks = none;
  created_by = none;
}

unfoldable pub post_line : Clock → DamageRow → DamageLineRow → Trx (Unit {0})
unfolding movement get_live_balance
post_line clock header line = do
  live_balance ← get_live_balance (line_dims header line)
  post_stock_movement clock (movement header line (cost_of live_balance))

unfoldable pub stamp_approved : Clock → Option ℕ → DamageRow → DamageRow
stamp_approved clock approved_by h = record h {
  status = ApprovalStatus.approved;
  approved_by = approved_by;
  approved_at = some clock.now;
  updated_at = clock.now;
}

unfoldable pub approve_damage : Clock → Option ℕ → ℕ → Trx DamagedStock
unfolding approve_document post_line stamp_approved
approve_damage clock approved_by =
    approve_document document (post_line clock) (stamp_approved clock approved_by)

unfoldable pub delete_damage : ℕ → Trx Bool
unfolding delete_document
delete_damage = delete_document document
