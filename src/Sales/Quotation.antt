-- ===== src/Sales/Quotation.antt =====
-- Quotations (backend/src/modules/sales: domain/quotation.entity.ts,
-- infrastructure/quotation.kysely-repository.ts), and the sales order that one is converted to.
pub mod Life
pub mod History
pub mod Once
use vrindavan.Base.{ℕ, String, Bool, false, not, ◌==◌, Option, none, some, List, get_or, sum_by}
use vrindavan.Exec.{◌>>=◌, ◌>>◌, gets, pure, transaction, or_throw, throw_if, map_each}
use vrindavan.Db.{
  Db, DocumentType, Trx, Clock, QuotationRow, QuotationLineRow, QuotationStatus, SalesOrderRow,
  SalesOrderLineRow, SalesOrderStatus, document_not_found, document_not_draft,
}
use vrindavan.Tables.{has_id, find_by_id, update_all}
use vrindavan.Tables.Sales.{quotations, quotation_lines, sales_orders, sales_order_lines}
use vrindavan.Inventory.Document.{
  Document, Loaded, to_domain, lines_for, find_all, find_document, insert_row, delete_document,
}
use vrindavan.Numbering.{get_current_financial_year_id, next_document_number}
use vrindavan.Trade.Document.{Pricing, create_priced, transition}
use vrindavan.Trade.Double.{Double, hundredths, reduce_sum, to_column}
use vrindavan.Trade.Pricing.{compute_line_total}
use vrindavan.Sales.Order

pub record CreateQuotationLineProps : Type 0 where
  pub product_id : ℕ
  pub product_unit_id : ℕ
  pub quantity : ℕ
  pub rate : ℕ
  pub discount_percent : Option ℕ
  pub gst_id : Option ℕ

pub record CreateQuotationProps : Type 0 where
  pub customer_id : ℕ
  pub quotation_date : Option ℕ
  pub valid_until : Option ℕ
  pub remarks : Option String
  pub lines : List CreateQuotationLineProps

-- Statuses are compared as text.
abbrev pub status_code : QuotationStatus → ℕ
status_code QuotationStatus.draft = 0
status_code QuotationStatus.sent = 1
status_code QuotationStatus.accepted = 2
status_code QuotationStatus.rejected = 3
status_code QuotationStatus.expired = 4
status_code QuotationStatus.converted = 5

abbrev pub in_status : QuotationStatus → QuotationRow → Bool
in_status status h = status_code h.status == status_code status

abbrev pub document : Document QuotationRow QuotationLineRow
document = record {
  headers = quotations;
  line_rows = quotation_lines;
  parent_of = λ l. l.quotation_id;
  is_draft = in_status QuotationStatus.draft;
  date_of = λ h. h.quotation_date;
  document_type = DocumentType.quotation;
  prefix = "QTN";
}

abbrev pub Quotation : Type 0
Quotation = Loaded QuotationRow QuotationLineRow

unfoldable pub find_quotations_with_lines : Trx (List Quotation)
unfolding find_all
find_quotations_with_lines = find_all document

unfoldable pub find_quotation : ℕ → Trx (Option Quotation)
unfolding find_document
find_quotation = find_document document

unfoldable pub price_line : CreateQuotationLineProps → Db → Double
unfolding compute_line_total
price_line line db =
    compute_line_total line.quantity line.rate (get_or line.discount_percent 0) line.gst_id db

unfoldable pub header_values :
    Clock → CreateQuotationProps → Option ℕ → Unit {0} → List Double → List ℕ → ℕ → QuotationRow
unfolding to_column reduce_sum
header_values clock props created_by year totals number id = record {
  id = id;
  quotation_number = number;
  quotation_date = get_or props.quotation_date clock.today;
  customer_id = props.customer_id;
  valid_until = props.valid_until;
  status = QuotationStatus.draft;
  remarks = props.remarks;
  total_amount = to_column (reduce_sum totals);
  created_by = created_by;
  created_at = clock.now;
  updated_at = clock.now;
}

unfoldable pub line_values : QuotationRow → CreateQuotationLineProps → Double → ℕ → QuotationLineRow
unfolding to_column
line_values header line total id = record {
  id = id;
  quotation_id = header.id;
  product_id = line.product_id;
  product_unit_id = line.product_unit_id;
  quantity = line.quantity;
  rate = line.rate;
  discount_percent = get_or line.discount_percent 0;
  gst_id = line.gst_id;
  line_total = to_column total;
}

abbrev pub pricing :
    Clock
    → CreateQuotationProps
    → Option ℕ
    → Pricing QuotationRow QuotationLineRow (Unit {0}) CreateQuotationLineProps Double
pricing clock props created_by = record {
  year = pure tt;
  price = price_line;
  refused = λ totals. false;
  new_header = header_values clock props created_by;
  new_line = line_values;
}

unfoldable pub create_quotation : Clock → CreateQuotationProps → Option ℕ → Trx Quotation
unfolding create_priced price_line header_values line_values
create_quotation clock props created_by =
    create_priced document (pricing clock props created_by) props.lines

unfoldable pub set_status : Clock → QuotationStatus → QuotationRow → QuotationRow
set_status clock status h = record h { status = status; updated_at = clock.now }

unfoldable pub transition_status : Clock → QuotationStatus → QuotationStatus → ℕ → Trx Quotation
unfolding transition set_status
transition_status clock from to = transition document (in_status from) (set_status clock to)

unfoldable pub send : Clock → ℕ → Trx Quotation
unfolding transition_status
send clock = transition_status clock QuotationStatus.draft QuotationStatus.sent

unfoldable pub accept : Clock → ℕ → Trx Quotation
unfolding transition_status
accept clock = transition_status clock QuotationStatus.sent QuotationStatus.accepted

unfoldable pub reject : Clock → ℕ → Trx Quotation
unfolding transition_status
reject clock = transition_status clock QuotationStatus.sent QuotationStatus.rejected

unfoldable pub order_header : Clock → ℕ → Option ℕ → QuotationRow → ℕ → List ℕ → ℕ → SalesOrderRow
order_header clock warehouse_id created_by header year number id = record {
  id = id;
  so_number = number;
  so_date = clock.today;
  customer_id = header.customer_id;
  quotation_id = some header.id;
  warehouse_id = warehouse_id;
  financial_year_id = year;
  expected_delivery_date = none;
  status = SalesOrderStatus.draft;
  remarks = none;
  total_amount = header.total_amount;
  created_by = created_by;
  approved_by = none;
  approved_at = none;
  created_at = clock.now;
  updated_at = clock.now;
}

unfoldable pub order_line : SalesOrderRow → QuotationLineRow → ℕ → SalesOrderLineRow
order_line header line id = record {
  id = id;
  so_id = header.id;
  product_id = line.product_id;
  product_unit_id = line.product_unit_id;
  quantity = line.quantity;
  delivered_quantity = 0;
  rate = line.rate;
  discount_percent = line.discount_percent;
  gst_id = line.gst_id;
  line_total = line.line_total;
}

unfoldable pub copy_line : SalesOrderRow → QuotationLineRow → Trx SalesOrderLineRow
unfolding order_line
copy_line header line = insert_row document sales_order_lines (order_line header line)

-- The order with its lines, and then the quotation is marked.
unfoldable pub conversion : Clock → ℕ → Option ℕ → QuotationRow → Trx Order.SalesOrder
unfolding get_current_financial_year_id next_document_number map_each order_header copy_line
    set_status
conversion clock warehouse_id created_by header = do
  rows ← gets (lines_for document header.id)
  year ← get_current_financial_year_id
  number ← next_document_number DocumentType.sales_order "SO"
  order ←
      insert_row document sales_orders
        (order_header clock warehouse_id created_by header year number)
  lines ← map_each rows (copy_line order)
  update_all quotations (has_id quotations header.id) (set_status clock QuotationStatus.converted)
  pure (to_domain Order.document order lines)

unfoldable pub convert_to_sales_order : Clock → ℕ → Option ℕ → ℕ → Trx Order.SalesOrder
unfolding conversion
convert_to_sales_order clock warehouse_id created_by id = transaction (do
  found ← find_by_id quotations id
  header ← or_throw found (document_not_found id)
  throw_if (not (in_status QuotationStatus.accepted header)) (document_not_draft id)
  conversion clock warehouse_id created_by header)

unfoldable pub delete_quotation : ℕ → Trx Bool
unfolding delete_document
delete_quotation = delete_document document
