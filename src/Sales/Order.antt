-- ===== src/Sales/Order.antt =====
-- SalesOrder documents (backend/src/modules/sales: domain/sales-order.entity.ts,
-- infrastructure/sales-order.kysely-repository.ts).
use vrindavan.Base.{ℕ, String, Bool, true, false, Option, none, some, List, get_or}
use vrindavan.Db.{Db, DocumentType, Trx, Clock, SalesOrderRow, SalesOrderLineRow, SalesOrderStatus}
use vrindavan.Tables.Sales.{sales_orders, sales_order_lines}
use vrindavan.Inventory.Document.{Document, Loaded, find_all, find_document, delete_document}
use vrindavan.Numbering.{get_current_financial_year_id}
use vrindavan.Trade.Document.{Pricing, create_priced, transition}
use vrindavan.Trade.Double.{Double, hundredths, reduce_sum, to_column}
use vrindavan.Trade.Pricing.{compute_line_total}

pub record CreateSalesOrderLineProps : Type 0 where
  pub product_id : ℕ
  pub product_unit_id : ℕ
  pub quantity : ℕ
  pub rate : ℕ
  pub discount_percent : Option ℕ
  pub gst_id : Option ℕ
  pub precomputed_line_total : Option ℕ

pub record CreateSalesOrderProps : Type 0 where
  pub customer_id : ℕ
  pub warehouse_id : ℕ
  pub quotation_id : Option ℕ
  pub so_date : Option ℕ
  pub expected_delivery_date : Option ℕ
  pub remarks : Option String
  pub lines : List CreateSalesOrderLineProps

abbrev pub is_draft : SalesOrderStatus → Bool
is_draft SalesOrderStatus.draft = true
is_draft SalesOrderStatus.pending_approval = false
is_draft SalesOrderStatus.approved = false
is_draft SalesOrderStatus.partially_delivered = false
is_draft SalesOrderStatus.completed = false
is_draft SalesOrderStatus.cancelled = false

-- `status === 'draft' || status === 'approved'`
abbrev pub is_cancellable : SalesOrderStatus → Bool
is_cancellable SalesOrderStatus.draft = true
is_cancellable SalesOrderStatus.pending_approval = false
is_cancellable SalesOrderStatus.approved = true
is_cancellable SalesOrderStatus.partially_delivered = false
is_cancellable SalesOrderStatus.completed = false
is_cancellable SalesOrderStatus.cancelled = false

abbrev pub document : Document SalesOrderRow SalesOrderLineRow
document = record {
  headers = sales_orders;
  line_rows = sales_order_lines;
  parent_of = λ l. l.so_id;
  is_draft = λ h. is_draft h.status;
  date_of = λ h. h.so_date;
  document_type = DocumentType.sales_order;
  prefix = "SO";
}

abbrev pub SalesOrder : Type 0
SalesOrder = Loaded SalesOrderRow SalesOrderLineRow

unfoldable pub find_sales_orders_with_lines : Trx (List SalesOrder)
unfolding find_all
find_sales_orders_with_lines = find_all document

unfoldable pub find_sales_order : ℕ → Trx (Option SalesOrder)
unfolding find_document
find_sales_order = find_document document

-- A total that is given, in hundredths, is stored as it is.
unfoldable pub price_line : CreateSalesOrderLineProps → Db → Double
unfolding compute_line_total hundredths
price_line line db = elim line.precomputed_line_total [
  | some total ↦ hundredths total
  | none ↦
      compute_line_total line.quantity line.rate (get_or line.discount_percent 0) line.gst_id db
]

unfoldable pub header_values :
    Clock → CreateSalesOrderProps → Option ℕ → ℕ → List Double → List ℕ → ℕ → SalesOrderRow
unfolding to_column reduce_sum
header_values clock props created_by year totals number id = record {
  id = id;
  so_number = number;
  so_date = get_or props.so_date clock.today;
  customer_id = props.customer_id;
  quotation_id = props.quotation_id;
  warehouse_id = props.warehouse_id;
  financial_year_id = year;
  expected_delivery_date = props.expected_delivery_date;
  status = SalesOrderStatus.draft;
  remarks = props.remarks;
  total_amount = to_column (reduce_sum totals);
  created_by = created_by;
  approved_by = none;
  approved_at = none;
  created_at = clock.now;
  updated_at = clock.now;
}

unfoldable pub line_values :
    SalesOrderRow → CreateSalesOrderLineProps → Double → ℕ → SalesOrderLineRow
unfolding to_column
line_values header line total id = record {
  id = id;
  so_id = header.id;
  product_id = line.product_id;
  product_unit_id = line.product_unit_id;
  quantity = line.quantity;
  delivered_quantity = 0;
  rate = line.rate;
  discount_percent = get_or line.discount_percent 0;
  gst_id = line.gst_id;
  line_total = to_column total;
}

abbrev pub pricing :
    Clock
    → CreateSalesOrderProps
    → Option ℕ
    → Pricing SalesOrderRow SalesOrderLineRow ℕ CreateSalesOrderLineProps Double
pricing clock props created_by = record {
  year = get_current_financial_year_id;
  price = price_line;
  refused = λ totals. false;
  new_header = header_values clock props created_by;
  new_line = line_values;
}

unfoldable pub create_sales_order : Clock → CreateSalesOrderProps → Option ℕ → Trx SalesOrder
unfolding create_priced get_current_financial_year_id price_line header_values line_values
create_sales_order clock props created_by =
    create_priced document (pricing clock props created_by) props.lines

unfoldable pub approved_by_at : Clock → Option ℕ → SalesOrderRow → SalesOrderRow
approved_by_at clock approved_by h = record h {
  status = SalesOrderStatus.approved;
  approved_by = approved_by;
  approved_at = some clock.now;
  updated_at = clock.now;
}

unfoldable pub approve_sales_order : Clock → Option ℕ → ℕ → Trx SalesOrder
unfolding transition approved_by_at
approve_sales_order clock approved_by =
    transition document (λ h. is_draft h.status) (approved_by_at clock approved_by)

unfoldable pub cancelled_at : Clock → SalesOrderRow → SalesOrderRow
cancelled_at clock h = record h { status = SalesOrderStatus.cancelled; updated_at = clock.now }

unfoldable pub cancel_sales_order : Clock → ℕ → Trx SalesOrder
unfolding transition cancelled_at
cancel_sales_order clock = transition document (λ h. is_cancellable h.status) (cancelled_at clock)

unfoldable pub delete_sales_order : ℕ → Trx Bool
unfolding delete_document
delete_sales_order = delete_document document
