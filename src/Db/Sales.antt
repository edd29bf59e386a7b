-- ===== src/Db/Sales.antt =====
-- The rows of the sales tables (backend/src/modules/sales/domain/*.entity.ts, and
-- database/migrations/tenant_template/005_sales.sql). Money, rates and percentages are counted in
-- hundredths, quantities in thousandths.
use vrindavan.Base.{ℕ, String, Option, List}
use vrindavan.Db.Documents.{ApprovalStatus}

pub data QuotationStatus : Type 0 where
  draft sent accepted rejected expired converted : QuotationStatus

pub data SalesOrderStatus : Type 0 where
  draft pending_approval approved partially_delivered completed cancelled : SalesOrderStatus

pub data DeliveryChallanStatus : Type 0 where
  draft dispatched delivered cancelled : DeliveryChallanStatus

-- The statuses of sales invoices, and of purchase invoices.
pub data InvoiceStatus : Type 0 where
  draft approved partially_paid paid cancelled : InvoiceStatus

pub data PaymentMode : Type 0 where
  cash bank_transfer cheque upi card other : PaymentMode

pub record QuotationRow : Type 0 where
  pub id : ℕ
  pub quotation_number : List ℕ
  pub quotation_date : ℕ
  pub customer_id : ℕ
  pub valid_until : Option ℕ
  pub status : QuotationStatus
  pub remarks : Option String
  pub total_amount : ℕ
  pub created_by : Option ℕ
  pub created_at : ℕ
  pub updated_at : ℕ

pub record QuotationLineRow : Type 0 where
  pub id : ℕ
  pub quotation_id : ℕ
  pub product_id : ℕ
  pub product_unit_id : ℕ
  pub quantity : ℕ
  pub rate : ℕ
  pub discount_percent : ℕ
  pub gst_id : Option ℕ
  pub line_total : ℕ

pub record SalesOrderRow : Type 0 where
  pub id : ℕ
  pub so_number : List ℕ
  pub so_date : ℕ
  pub customer_id : ℕ
  pub quotation_id : Option ℕ
  pub warehouse_id : ℕ
  pub financial_year_id : ℕ
  pub expected_delivery_date : Option ℕ
  pub status : SalesOrderStatus
  pub remarks : Option String
  pub total_amount : ℕ
  pub created_by : Option ℕ
  pub approved_by : Option ℕ
  pub approved_at : Option ℕ
  pub created_at : ℕ
  pub updated_at : ℕ

pub record SalesOrderLineRow : Type 0 where
  pub id : ℕ
  pub so_id : ℕ
  pub product_id : ℕ
  pub product_unit_id : ℕ
  pub quantity : ℕ
  pub delivered_quantity : ℕ
  pub rate : ℕ
  pub discount_percent : ℕ
  pub gst_id : Option ℕ
  pub line_total : ℕ

pub record DeliveryChallanRow : Type 0 where
  pub id : ℕ
  pub dc_number : List ℕ
  pub dc_date : ℕ
  pub so_id : Option ℕ
  pub customer_id : ℕ
  pub warehouse_id : ℕ
  pub transporter_id : Option ℕ
  pub status : DeliveryChallanStatus
  pub remarks : Option String
  pub created_by : Option ℕ
  pub created_at : ℕ
  pub updated_at : ℕ

pub record DeliveryChallanLineRow : Type 0 where
  pub id : ℕ
  pub dc_id : ℕ
  pub so_line_id : Option ℕ
  pub product_id : ℕ
  pub product_unit_id : ℕ
  pub batch_id : Option ℕ
  pub quantity : ℕ
  pub remarks : Option String

pub record SalesInvoiceRow : Type 0 where
  pub id : ℕ
  pub invoice_number : List ℕ
  pub invoice_date : ℕ
  pub dc_id : Option ℕ
  pub so_id : Option ℕ
  pub customer_id : ℕ
  pub financial_year_id : ℕ
  pub due_date : Option ℕ
  pub status : InvoiceStatus
  pub subtotal : ℕ
  pub tax_amount : ℕ
  pub discount_amount : ℕ
  pub total_amount : ℕ
  pub paid_amount : ℕ
  pub created_by : Option ℕ
  pub approved_by : Option ℕ
  pub approved_at : Option ℕ
  pub created_at : ℕ
  pub updated_at : ℕ

pub record SalesInvoiceLineRow : Type 0 where
  pub id : ℕ
  pub invoice_id : ℕ
  pub product_id : ℕ
  pub product_unit_id : ℕ
  pub batch_id : Option ℕ
  pub quantity : ℕ
  pub rate : ℕ
  pub discount_percent : ℕ
  pub gst_id : Option ℕ
  pub tax_amount : ℕ
  pub line_total : ℕ

pub record CustomerPaymentRow : Type 0 where
  pub id : ℕ
  pub payment_number : List ℕ
  pub payment_date : ℕ
  pub customer_id : ℕ
  pub amount : ℕ
  pub payment_mode : PaymentMode
  pub reference_number : Option String
  pub remarks : Option String
  pub created_by : Option ℕ
  pub created_at : ℕ

pub record CustomerPaymentAllocationRow : Type 0 where
  pub id : ℕ
  pub payment_id : ℕ
  pub sales_invoice_id : ℕ
  pub allocated_amount : ℕ

pub record SalesReturnRow : Type 0 where
  pub id : ℕ
  pub return_number : List ℕ
  pub return_date : ℕ
  pub customer_id : ℕ
  pub sales_invoice_id : Option ℕ
  pub warehouse_id : ℕ
  pub reason : Option String
  pub status : ApprovalStatus
  pub total_amount : ℕ
  pub created_by : Option ℕ
  pub approved_by : Option ℕ
  pub approved_at : Option ℕ
  pub created_at : ℕ
  pub updated_at : ℕ

pub record SalesReturnLineRow : Type 0 where
  pub id : ℕ
  pub return_id : ℕ
  pub product_id : ℕ
  pub batch_id : Option ℕ
  pub quantity : ℕ
  pub rate : ℕ
  pub line_total : ℕ

pub record CustomerRow : Type 0 where
  pub id : ℕ
  pub name : String

pub record SalesDb : Type 0 where
  pub customers : List CustomerRow
  pub quotations : List QuotationRow
  pub quotation_lines : List QuotationLineRow
  pub sales_orders : List SalesOrderRow
  pub sales_order_lines : List SalesOrderLineRow
  pub delivery_challans : List DeliveryChallanRow
  pub delivery_challan_lines : List DeliveryChallanLineRow
  pub sales_invoices : List SalesInvoiceRow
  pub sales_invoice_lines : List SalesInvoiceLineRow
  pub customer_payments : List CustomerPaymentRow
  pub customer_payment_allocations : List CustomerPaymentAllocationRow
  pub sales_returns : List SalesReturnRow
  pub sales_return_lines : List SalesReturnLineRow
