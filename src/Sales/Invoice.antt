-- ===== src/Sales/Invoice.antt =====
-- SalesInvoice documents (backend/src/modules/sales: domain/sales-invoice.entity.ts,
-- infrastructure/sales-invoice.kysely-repository.ts).
use vrindavan.Base.{ℕ, Bool, true, false, Option, none, some, List, get_or}
use vrindavan.Db.{Db, DocumentType, Trx, Clock, SalesInvoiceRow, SalesInvoiceLineRow, InvoiceStatus}
use vrindavan.Tables.Sales.{sales_invoices, sales_invoice_lines}
use vrindavan.Inventory.Document.{Document, Loaded, find_all, find_document, delete_document}
use vrindavan.Numbering.{get_current_financial_year_id}
use vrindavan.Trade.Document.{Pricing, create_priced, transition}
use vrindavan.Trade.Double.{to_column}
use vrindavan.Trade.Pricing.{
  compute_line, ComputedLine, invoice_total, overdiscounted, total_subtotal, total_tax,
}

pub record CreateSalesInvoiceLineProps : Type 0 where
  pub product_id : ℕ
  pub product_unit_id : ℕ
  pub batch_id : Option ℕ
  pub quantity : ℕ
  pub rate : ℕ
  pub discount_percent : Option ℕ
  pub gst_id : Option ℕ

pub record CreateSalesInvoiceProps : Type 0 where
  pub customer_id : ℕ
  pub dc_id : Option ℕ
  pub so_id : Option ℕ
  pub invoice_date : Option ℕ
  pub due_date : Option ℕ
  pub discount_amount : Option ℕ
  pub lines : List CreateSalesInvoiceLineProps

abbrev pub is_draft : InvoiceStatus → Bool
is_draft InvoiceStatus.draft = true
is_draft InvoiceStatus.approved = false
is_draft InvoiceStatus.partially_paid = false
is_draft InvoiceStatus.paid = false
is_draft InvoiceStatus.cancelled = false

abbrev pub document : Document SalesInvoiceRow SalesInvoiceLineRow
document = record {
  headers = sales_invoices;
  line_rows = sales_invoice_lines;
  parent_of = λ l. l.invoice_id;
  is_draft = λ h. is_draft h.status;
  date_of = λ h. h.invoice_date;
  document_type = DocumentType.sales_invoice;
  prefix = "SINV";
}

abbrev pub SalesInvoice : Type 0
SalesInvoice = Loaded SalesInvoiceRow SalesInvoiceLineRow

unfoldable pub find_sales_invoices_with_lines : Trx (List SalesInvoice)
unfolding find_all
find_sales_invoices_with_lines = find_all document

unfoldable pub find_sales_invoice : ℕ → Trx (Option SalesInvoice)
unfolding find_document
find_sales_invoice = find_document document

unfoldable pub price_line : CreateSalesInvoiceLineProps → Db → ComputedLine
unfolding compute_line
price_line line db =
    compute_line line.quantity line.rate (get_or line.discount_percent 0) line.gst_id db

unfoldable pub header_values :
    Clock
    → CreateSalesInvoiceProps
    → Option ℕ
    → ℕ
    → List ComputedLine
    → List ℕ
    → ℕ
    → SalesInvoiceRow
unfolding to_column total_subtotal total_tax invoice_total
header_values clock props created_by year computed number id = record {
  id = id;
  invoice_number = number;
  invoice_date = get_or props.invoice_date clock.today;
  dc_id = props.dc_id;
  so_id = props.so_id;
  customer_id = props.customer_id;
  financial_year_id = year;
  due_date = props.due_date;
  status = InvoiceStatus.draft;
  subtotal = to_column (total_subtotal computed);
  tax_amount = to_column (total_tax computed);
  discount_amount = get_or props.discount_amount 0;
  total_amount = invoice_total computed (get_or props.discount_amount 0);
  paid_amount = 0;
  created_by = created_by;
  approved_by = none;
  approved_at = none;
  created_at = clock.now;
  updated_at = clock.now;
}

unfoldable pub line_values :
    SalesInvoiceRow → CreateSalesInvoiceLineProps → ComputedLine → ℕ → SalesInvoiceLineRow
unfolding to_column
line_values header line c id = record {
  id = id;
  invoice_id = header.id;
  product_id = line.product_id;
  product_unit_id = line.product_unit_id;
  batch_id = line.batch_id;
  quantity = line.quantity;
  rate = line.rate;
  discount_percent = get_or line.discount_percent 0;
  gst_id = line.gst_id;
  tax_amount = to_column c.tax_amount;
  line_total = to_column c.line_total;
}

abbrev pub pricing :
    Clock
    → CreateSalesInvoiceProps
    → Option ℕ
    → Pricing SalesInvoiceRow SalesInvoiceLineRow ℕ CreateSalesInvoiceLineProps ComputedLine
pricing clock props created_by = record {
  year = get_current_financial_year_id;
  price = price_line;
  refused = λ computed. overdiscounted computed (get_or props.discount_amount 0);
  new_header = header_values clock props created_by;
  new_line = line_values;
}

unfoldable pub create_sales_invoice : Clock → CreateSalesInvoiceProps → Option ℕ → Trx SalesInvoice
unfolding create_priced get_current_financial_year_id price_line header_values line_values
    overdiscounted
create_sales_invoice clock props created_by =
    create_priced document (pricing clock props created_by) props.lines

unfoldable pub approved_by_at : Clock → Option ℕ → SalesInvoiceRow → SalesInvoiceRow
approved_by_at clock approved_by h = record h {
  status = InvoiceStatus.approved;
  approved_by = approved_by;
  approved_at = some clock.now;
  updated_at = clock.now;
}

unfoldable pub approve_sales_invoice : Clock → Option ℕ → ℕ → Trx SalesInvoice
unfolding transition approved_by_at
approve_sales_invoice clock approved_by =
    transition document (λ h. is_draft h.status) (approved_by_at clock approved_by)

unfoldable pub delete_sales_invoice : ℕ → Trx Bool
unfolding delete_document
delete_sales_invoice = delete_document document
