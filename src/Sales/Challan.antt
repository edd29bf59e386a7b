-- ===== src/Sales/Challan.antt =====
-- DeliveryChallan documents (backend/src/modules/sales: domain/delivery-challan.entity.ts,
-- infrastructure/delivery-challan.kysely-repository.ts).
pub mod Delivered
pub mod Returns
use vrindavan.Base.{ℕ, ◌+◌, ◌*◌, String, Bool, true, false, Option, none, some, List, get_or}
use vrindavan.Exec.{◌>>=◌}
use vrindavan.Db.{
  DocumentType, MovementType, ReferenceType, Trx, Clock, Dims, DeliveryChallanRow,
  DeliveryChallanLineRow, SalesOrderRow, SalesOrderLineRow, DeliveryChallanStatus, SalesOrderStatus,
}
use vrindavan.Tables.Sales.{
  delivery_challans, delivery_challan_lines, sales_orders, sales_order_lines,
}
use vrindavan.Inventory.Document.{
  Document, Loaded, find_all, find_document, insert_row, create_document, delete_document,
}
use vrindavan.Stock.Posting.{PostMovementInput, get_live_balance, cost_of}
use vrindavan.Trade.Fulfilment.{Fulfils, base_quantity, post_unrounded, fulfil}

pub record CreateDeliveryChallanLineProps : Type 0 where
  pub so_line_id : Option ℕ
  pub product_id : ℕ
  pub product_unit_id : ℕ
  pub batch_id : Option ℕ
  pub quantity : ℕ
  pub remarks : Option String

pub record CreateDeliveryChallanProps : Type 0 where
  pub so_id : Option ℕ
  pub customer_id : ℕ
  pub warehouse_id : ℕ
  pub transporter_id : Option ℕ
  pub dc_date : Option ℕ
  pub remarks : Option String
  pub lines : List CreateDeliveryChallanLineProps

abbrev pub is_draft : DeliveryChallanStatus → Bool
is_draft DeliveryChallanStatus.draft = true
is_draft DeliveryChallanStatus.dispatched = false
is_draft DeliveryChallanStatus.delivered = false
is_draft DeliveryChallanStatus.cancelled = false

abbrev pub document : Document DeliveryChallanRow DeliveryChallanLineRow
document = record {
  headers = delivery_challans;
  line_rows = delivery_challan_lines;
  parent_of = λ l. l.dc_id;
  is_draft = λ h. is_draft h.status;
  date_of = λ h. h.dc_date;
  document_type = DocumentType.delivery_challan;
  prefix = "DC";
}

abbrev pub DeliveryChallan : Type 0
DeliveryChallan = Loaded DeliveryChallanRow DeliveryChallanLineRow

unfoldable pub find_delivery_challans_with_lines : Trx (List DeliveryChallan)
unfolding find_all
find_delivery_challans_with_lines = find_all document

unfoldable pub find_delivery_challan : ℕ → Trx (Option DeliveryChallan)
unfolding find_document
find_delivery_challan = find_document document

unfoldable pub line_values :
    DeliveryChallanRow → CreateDeliveryChallanLineProps → ℕ → DeliveryChallanLineRow
line_values header line id = record {
  id = id;
  dc_id = header.id;
  so_line_id = line.so_line_id;
  product_id = line.product_id;
  product_unit_id = line.product_unit_id;
  batch_id = line.batch_id;
  quantity = line.quantity;
  remarks = line.remarks;
}

unfoldable pub insert_line :
    DeliveryChallanRow → CreateDeliveryChallanLineProps → Trx DeliveryChallanLineRow
unfolding line_values
insert_line header line = insert_row document delivery_challan_lines (line_values header line)

unfoldable pub header_values :
    Clock → CreateDeliveryChallanProps → Option ℕ → List ℕ → ℕ → DeliveryChallanRow
header_values clock props created_by number id = record {
  id = id;
  dc_number = number;
  dc_date = get_or props.dc_date clock.today;
  so_id = props.so_id;
  customer_id = props.customer_id;
  warehouse_id = props.warehouse_id;
  transporter_id = props.transporter_id;
  status = DeliveryChallanStatus.draft;
  remarks = props.remarks;
  created_by = created_by;
  created_at = clock.now;
  updated_at = clock.now;
}

unfoldable pub create_delivery_challan :
    Clock → CreateDeliveryChallanProps → Option ℕ → Trx DeliveryChallan
unfolding create_document header_values insert_line
create_delivery_challan clock props created_by =
    create_document document (header_values clock props created_by) props.lines insert_line

-- No rack and no location.
unfoldable pub line_dims : DeliveryChallanRow → DeliveryChallanLineRow → Dims
line_dims header line = record {
  product_id = line.product_id;
  warehouse_id = header.warehouse_id;
  rack_id = none;
  location_id = none;
  batch_id = line.batch_id;
}

unfoldable pub movement : DeliveryChallanRow → DeliveryChallanLineRow → ℕ → ℕ → PostMovementInput
unfolding line_dims base_quantity
movement header line factor unit_cost = record {
  dims = line_dims header line;
  movement_type = MovementType.sales_out;
  qty_in = none;
  qty_out = some (base_quantity line.quantity factor);
  unit_cost = some unit_cost;
  reference_type = ReferenceType.delivery_challan;
  reference_id = header.id;
  reference_line_id = some line.id;
  remarks = none;
  created_by = none;
}

unfoldable pub post_line : Clock → DeliveryChallanRow → DeliveryChallanLineRow → ℕ → Trx (Unit {0})
unfolding movement get_live_balance post_unrounded
post_line clock header line factor = do
  live_balance ← get_live_balance (line_dims header line)
  post_unrounded clock (movement header line factor (cost_of live_balance)) (line.quantity * factor)

unfoldable pub stamp_delivered : Clock → DeliveryChallanRow → DeliveryChallanRow
stamp_delivered clock h = record h {
  status = DeliveryChallanStatus.delivered;
  updated_at = clock.now;
}

-- `where('status', 'in', ['approved', 'partially_delivered'])`
abbrev pub is_open : SalesOrderStatus → Bool
is_open SalesOrderStatus.draft = false
is_open SalesOrderStatus.pending_approval = false
is_open SalesOrderStatus.approved = true
is_open SalesOrderStatus.partially_delivered = true
is_open SalesOrderStatus.completed = false
is_open SalesOrderStatus.cancelled = false

abbrev pub order_completed : Clock → SalesOrderRow → SalesOrderRow
order_completed clock o = record o { status = SalesOrderStatus.completed; updated_at = clock.now }

abbrev pub order_partially_delivered : Clock → SalesOrderRow → SalesOrderRow
order_partially_delivered clock o = record o {
  status = SalesOrderStatus.partially_delivered;
  updated_at = clock.now;
}

abbrev pub add_delivered : ℕ → SalesOrderLineRow → SalesOrderLineRow
add_delivered quantity m = record m { delivered_quantity = m.delivered_quantity + quantity }

abbrev pub fulfils :
    Fulfils DeliveryChallanRow DeliveryChallanLineRow SalesOrderRow SalesOrderLineRow
fulfils = record {
  note = document;
  orders = sales_orders;
  order_lines = sales_order_lines;
  order_of = λ h. h.so_id;
  order_line_of = λ l. l.so_line_id;
  unit_of = λ l. l.product_unit_id;
  quantity_on = λ l. l.quantity;
  post = post_line;
  stamp = stamp_delivered;
  order_of_line = λ m. m.so_id;
  ordered = λ m. m.quantity;
  fulfilled = λ m. m.delivered_quantity;
  add = add_delivered;
  is_open = λ o. is_open o.status;
  completed = order_completed;
  partially = order_partially_delivered;
}

unfoldable pub deliver : Clock → ℕ → Trx DeliveryChallan
unfolding fulfil post_line stamp_delivered
deliver clock = fulfil fulfils clock

unfoldable pub delete_delivery_challan : ℕ → Trx Bool
unfolding delete_document
delete_delivery_challan = delete_document document
