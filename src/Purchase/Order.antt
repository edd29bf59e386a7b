-- ===== src/Purchase/Order.antt =====
-- PurchaseOrder documents (backend/src/modules/purchase: domain/purchase-order.entity.ts,
-- infrastructure/purchase-order.kysely-repository.ts).
use vrindavan.Base.{ℕ, String, Bool, true, false, Option, none, some, List, get_or}
use vrindavan.Db.{
  Db, DocumentType, Trx, Clock, PurchaseOrderRow, PurchaseOrderLineRow, PurchaseOrderStatus,
}
use vrindavan.Tables.Purchase.{purchase_orders, purchase_order_lines}
use vrindavan.Inventory.Document.{Document, Loaded, find_all, find_document, delete_document}
use vrindavan.Numbering.{get_current_financial_year_id}
use vrindavan.Trade.Document.{Pricing, create_priced, transition}
use vrindavan.Trade.Double.{Double, reduce_sum, to_column}
use vrindavan.Trade.Pricing.{compute_line_total}

pub record CreatePurchaseOrderLineProps : Type 0 where
  pub product_id : ℕ
  pub product_unit_id : ℕ
  pub quantity : ℕ
  pub rate : ℕ
  pub discount_percent : Option ℕ
  pub gst_id : Option ℕ

pub record CreatePurchaseOrderProps : Type 0 where
  pub supplier_id : ℕ
  pub warehouse_id : ℕ
  pub po_date : Option ℕ
  pub expected_delivery_date : Option ℕ
  pub remarks : Option String
  pub lines : List CreatePurchaseOrderLineProps

abbrev pub is_draft : PurchaseOrderStatus → Bool
is_draft PurchaseOrderStatus.draft = true
is_draft PurchaseOrderStatus.pending_approval = false
is_draft PurchaseOrderStatus.approved = false
is_draft PurchaseOrderStatus.partially_received = false
is_draft PurchaseOrderStatus.completed = false
is_draft PurchaseOrderStatus.cancelled = false

-- `status === 'draft' || status === 'approved'`
abbrev pub is_cancellable : PurchaseOrderStatus → Bool
is_cancellable PurchaseOrderStatus.draft = true
is_cancellable PurchaseOrderStatus.pending_approval = false
is_cancellable PurchaseOrderStatus.approved = true
is_cancellable PurchaseOrderStatus.partially_received = false
is_cancellable PurchaseOrderStatus.completed = false
is_cancellable PurchaseOrderStatus.cancelled = false

abbrev pub document : Document PurchaseOrderRow PurchaseOrderLineRow
document = record {
  headers = purchase_orders;
  line_rows = purchase_order_lines;
  parent_of = λ l. l.po_id;
  is_draft = λ h. is_draft h.status;
  date_of = λ h. h.po_date;
  document_type = DocumentType.purchase_order;
  prefix = "PO";
}

abbrev pub PurchaseOrder : Type 0
PurchaseOrder = Loaded PurchaseOrderRow PurchaseOrderLineRow

unfoldable pub find_purchase_orders_with_lines : Trx (List PurchaseOrder)
unfolding find_all
find_purchase_orders_with_lines = find_all document

unfoldable pub find_purchase_order : ℕ → Trx (Option PurchaseOrder)
unfolding find_document
find_purchase_order = find_document document

unfoldable pub price_line : CreatePurchaseOrderLineProps → Db → Double
unfolding compute_line_total
price_line line db =
    compute_line_total line.quantity line.rate (get_or line.discount_percent 0) line.gst_id db

unfoldable pub header_values :
    Clock → CreatePurchaseOrderProps → Option ℕ → ℕ → List Double → List ℕ → ℕ → PurchaseOrderRow
unfolding to_column reduce_sum
header_values clock props created_by year totals number id = record {
  id = id;
  po_number = number;
  po_date = get_or props.po_date clock.today;
  supplier_id = props.supplier_id;
  warehouse_id = props.warehouse_id;
  financial_year_id = year;
  expected_delivery_date = props.expected_delivery_date;
  status = PurchaseOrderStatus.draft;
  remarks = props.remarks;
  total_amount = to_column (reduce_sum totals);
  created_by = created_by;
  approved_by = none;
  approved_at = none;
  created_at = clock.now;
  updated_at = clock.now;
}

unfoldable pub line_values :
    PurchaseOrderRow → CreatePurchaseOrderLineProps → Double → ℕ → PurchaseOrderLineRow
unfolding to_column
line_values header line total id = record {
  id = id;
  po_id = header.id;
  product_id = line.product_id;
  product_unit_id = line.product_unit_id;
  quantity = line.quantity;
  received_quantity = 0;
  rate = line.rate;
  discount_percent = get_or line.discount_percent 0;
  gst_id = line.gst_id;
  line_total = to_column total;
}

abbrev pub pricing :
    Clock
    → CreatePurchaseOrderProps
    → Option ℕ
    → Pricing PurchaseOrderRow PurchaseOrderLineRow ℕ CreatePurchaseOrderLineProps Double
pricing clock props created_by = record {
  year = get_current_financial_year_id;
  price = price_line;
  refused = λ totals. false;
  new_header = header_values clock props created_by;
  new_line = line_values;
}

unfoldable pub create_purchase_order :
    Clock → CreatePurchaseOrderProps → Option ℕ → Trx PurchaseOrder
unfolding create_priced get_current_financial_year_id price_line header_values line_values
create_purchase_order clock props created_by =
    create_priced document (pricing clock props created_by) props.lines

unfoldable pub approved_by_at : Clock → Option ℕ → PurchaseOrderRow → PurchaseOrderRow
approved_by_at clock approved_by h = record h {
  status = PurchaseOrderStatus.approved;
  approved_by = approved_by;
  approved_at = some clock.now;
  updated_at = clock.now;
}

unfoldable pub approve_purchase_order : Clock → Option ℕ → ℕ → Trx PurchaseOrder
unfolding transition approved_by_at
approve_purchase_order clock approved_by =
    transition document (λ h. is_draft h.status) (approved_by_at clock approved_by)

unfoldable pub cancelled_at : Clock → PurchaseOrderRow → PurchaseOrderRow
cancelled_at clock h = record h { status = PurchaseOrderStatus.cancelled; updated_at = clock.now }

unfoldable pub cancel_purchase_order : Clock → ℕ → Trx PurchaseOrder
unfolding transition cancelled_at
cancel_purchase_order clock =
    transition document (λ h. is_cancellable h.status) (cancelled_at clock)

unfoldable pub delete_purchase_order : ℕ → Trx Bool
unfolding delete_document
delete_purchase_order = delete_document document
