-- ===== src/Purchase/Grn.antt =====
-- GoodsReceivedNote documents (backend/src/modules/purchase: domain/goods-received-note.entity.ts,
-- infrastructure/goods-received-note.kysely-repository.ts).
pub mod Received
pub mod Returns
use vrindavan.Base.{ℕ, ◌+◌, String, Bool, true, false, Option, none, some, List, get_or}
use vrindavan.Db.{
  DocumentType, MovementType, ReferenceType, Trx, Clock, Dims, GoodsReceivedNoteRow, GrnLineRow,
  PurchaseOrderRow, PurchaseOrderLineRow, GoodsReceivedNoteStatus, PurchaseOrderStatus,
}
use vrindavan.Tables.Purchase.{
  goods_received_notes, grn_lines, purchase_orders, purchase_order_lines,
}
use vrindavan.Inventory.Document.{
  Document, Loaded, find_all, find_document, insert_row, create_document, delete_document,
}
use vrindavan.Stock.Posting.{PostMovementInput, post_stock_movement}
use vrindavan.Trade.Fulfilment.{Fulfils, base_quantity, base_unit_cost, fulfil}

pub record CreateGoodsReceivedNoteLineProps : Type 0 where
  pub po_line_id : Option ℕ
  pub product_id : ℕ
  pub product_unit_id : ℕ
  pub batch_id : Option ℕ
  pub quantity : ℕ
  pub rate : ℕ
  pub remarks : Option String

pub record CreateGoodsReceivedNoteProps : Type 0 where
  pub po_id : Option ℕ
  pub supplier_id : ℕ
  pub warehouse_id : ℕ
  pub transporter_id : Option ℕ
  pub grn_date : Option ℕ
  pub remarks : Option String
  pub lines : List CreateGoodsReceivedNoteLineProps

abbrev pub is_draft : GoodsReceivedNoteStatus → Bool
is_draft GoodsReceivedNoteStatus.draft = true
is_draft GoodsReceivedNoteStatus.completed = false
is_draft GoodsReceivedNoteStatus.cancelled = false

abbrev pub document : Document GoodsReceivedNoteRow GrnLineRow
document = record {
  headers = goods_received_notes;
  line_rows = grn_lines;
  parent_of = λ l. l.grn_id;
  is_draft = λ h. is_draft h.status;
  date_of = λ h. h.grn_date;
  document_type = DocumentType.grn;
  prefix = "GRN";
}

abbrev pub GoodsReceivedNote : Type 0
GoodsReceivedNote = Loaded GoodsReceivedNoteRow GrnLineRow

unfoldable pub find_goods_received_notes_with_lines : Trx (List GoodsReceivedNote)
unfolding find_all
find_goods_received_notes_with_lines = find_all document

unfoldable pub find_grn : ℕ → Trx (Option GoodsReceivedNote)
unfolding find_document
find_grn = find_document document

unfoldable pub line_values :
    GoodsReceivedNoteRow → CreateGoodsReceivedNoteLineProps → ℕ → GrnLineRow
line_values header line id = record {
  id = id;
  grn_id = header.id;
  po_line_id = line.po_line_id;
  product_id = line.product_id;
  product_unit_id = line.product_unit_id;
  batch_id = line.batch_id;
  quantity = line.quantity;
  rate = line.rate;
  remarks = line.remarks;
}

unfoldable pub insert_line :
    GoodsReceivedNoteRow → CreateGoodsReceivedNoteLineProps → Trx GrnLineRow
unfolding line_values
insert_line header line = insert_row document grn_lines (line_values header line)

unfoldable pub header_values :
    Clock → CreateGoodsReceivedNoteProps → Option ℕ → List ℕ → ℕ → GoodsReceivedNoteRow
header_values clock props created_by number id = record {
  id = id;
  grn_number = number;
  grn_date = get_or props.grn_date clock.today;
  po_id = props.po_id;
  supplier_id = props.supplier_id;
  warehouse_id = props.warehouse_id;
  transporter_id = props.transporter_id;
  status = GoodsReceivedNoteStatus.draft;
  remarks = props.remarks;
  created_by = created_by;
  created_at = clock.now;
  updated_at = clock.now;
}

unfoldable pub create_grn : Clock → CreateGoodsReceivedNoteProps → Option ℕ → Trx GoodsReceivedNote
unfolding create_document header_values insert_line
create_grn clock props created_by =
    create_document document (header_values clock props created_by) props.lines insert_line

-- No rack and no location.
unfoldable pub line_dims : GoodsReceivedNoteRow → GrnLineRow → Dims
line_dims header line = record {
  product_id = line.product_id;
  warehouse_id = header.warehouse_id;
  rack_id = none;
  location_id = none;
  batch_id = line.batch_id;
}

unfoldable pub movement : GoodsReceivedNoteRow → GrnLineRow → ℕ → PostMovementInput
unfolding line_dims base_quantity base_unit_cost
movement header line factor = record {
  dims = line_dims header line;
  movement_type = MovementType.purchase_in;
  qty_in = some (base_quantity line.quantity factor);
  qty_out = none;
  unit_cost = some (base_unit_cost line.rate factor);
  reference_type = ReferenceType.grn;
  reference_id = header.id;
  reference_line_id = some line.id;
  remarks = none;
  created_by = none;
}

unfoldable pub post_line : Clock → GoodsReceivedNoteRow → GrnLineRow → ℕ → Trx (Unit {0})
unfolding movement
post_line clock header line factor = post_stock_movement clock (movement header line factor)

unfoldable pub stamp_completed : Clock → GoodsReceivedNoteRow → GoodsReceivedNoteRow
stamp_completed clock h = record h {
  status = GoodsReceivedNoteStatus.completed;
  updated_at = clock.now;
}

-- `where('status', 'in', ['approved', 'partially_received'])`
abbrev pub is_open : PurchaseOrderStatus → Bool
is_open PurchaseOrderStatus.draft = false
is_open PurchaseOrderStatus.pending_approval = false
is_open PurchaseOrderStatus.approved = true
is_open PurchaseOrderStatus.partially_received = true
is_open PurchaseOrderStatus.completed = false
is_open PurchaseOrderStatus.cancelled = false

abbrev pub order_completed : Clock → PurchaseOrderRow → PurchaseOrderRow
order_completed clock o = record o {
  status = PurchaseOrderStatus.completed;
  updated_at = clock.now;
}

abbrev pub order_partially_received : Clock → PurchaseOrderRow → PurchaseOrderRow
order_partially_received clock o = record o {
  status = PurchaseOrderStatus.partially_received;
  updated_at = clock.now;
}

abbrev pub add_received : ℕ → PurchaseOrderLineRow → PurchaseOrderLineRow
add_received quantity m = record m { received_quantity = m.received_quantity + quantity }

abbrev pub fulfils : Fulfils GoodsReceivedNoteRow GrnLineRow PurchaseOrderRow PurchaseOrderLineRow
fulfils = record {
  note = document;
  orders = purchase_orders;
  order_lines = purchase_order_lines;
  order_of = λ h. h.po_id;
  order_line_of = λ l. l.po_line_id;
  unit_of = λ l. l.product_unit_id;
  quantity_on = λ l. l.quantity;
  post = post_line;
  stamp = stamp_completed;
  order_of_line = λ m. m.po_id;
  ordered = λ m. m.quantity;
  fulfilled = λ m. m.received_quantity;
  add = add_received;
  is_open = λ o. is_open o.status;
  completed = order_completed;
  partially = order_partially_received;
}

unfoldable pub complete_grn : Clock → ℕ → Trx GoodsReceivedNote
unfolding fulfil post_line stamp_completed
complete_grn clock = fulfil fulfils clock

unfoldable pub delete_grn : ℕ → Trx Bool
unfolding delete_document
delete_grn = delete_document document
