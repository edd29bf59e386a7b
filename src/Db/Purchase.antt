-- ===== src/Db/Purchase.antt =====
-- The rows of the purchase tables (backend/src/modules/purchase/domain/*.entity.ts, and
-- database/migrations/tenant_template/004_purchase.sql), in the units of the sales tables.
use vrindavan.Base.{ℕ, String, Option, List}
use vrindavan.Db.Documents.{ApprovalStatus}
use vrindavan.Db.Sales.{InvoiceStatus, PaymentMode}

pub data PurchaseOrderStatus : Type 0 where
  draft pending_approval approved partially_received completed cancelled : PurchaseOrderStatus

pub data GoodsReceivedNoteStatus : Type 0 where
  draft completed cancelled : GoodsReceivedNoteStatus

pub record PurchaseOrderRow : Type 0 where
  pub id : ℕ
  pub po_number : List ℕ
  pub po_date : ℕ
  pub supplier_id : ℕ
  pub warehouse_id : ℕ
  pub financial_year_id : ℕ
  pub expected_delivery_date : Option ℕ
  pub status : PurchaseOrderStatus
  pub remarks : Option String
  pub total_amount : ℕ
  pub created_by : Option ℕ
  pub approved_by : Option ℕ
  pub approved_at : Option ℕ
  pub created_at : ℕ
  pub updated_at : ℕ

pub record PurchaseOrderLineRow : Type 0 where
  pub id : ℕ
  pub po_id : ℕ
  pub product_id : ℕ
  pub product_unit_id : ℕ
  pub quantity : ℕ
  pub received_quantity : ℕ
  pub rate : ℕ
  pub discount_percent : ℕ
  pub gst_id : Option ℕ
  pub line_total : ℕ

pub record GoodsReceivedNoteRow : Type 0 where
  pub id : ℕ
  pub grn_number : List ℕ
  pub grn_date : ℕ
  pub po_id : Option ℕ
  pub supplier_id : ℕ
  pub warehouse_id : ℕ
  pub transporter_id : Option ℕ
  pub status : GoodsReceivedNoteStatus
  pub remarks : Option String
  pub created_by : Option ℕ
  pub created_at : ℕ
  pub updated_at : ℕ

pub record GrnLineRow : Type 0 where
  pub id : ℕ
  pub grn_id : ℕ
  pub po_line_id : Option ℕ
  pub product_id : ℕ
  pub product_unit_id : ℕ
  pub batch_id : Option ℕ
  pub quantity : ℕ
  pub rate : ℕ
  pub remarks : Option String

pub record PurchaseInvoiceRow : Type 0 where
  pub id : ℕ
  pub invoice_number : List ℕ
  pub invoice_date : ℕ
  pub supplier_invoice_number : Option String
  pub grn_id : Option ℕ
  pub po_id : Option ℕ
  pub supplier_id : ℕ
  pub financial_year_id : ℕ
  pub due_date : Option ℕ
  pub status : InvoiceStatus
  pub subtotal : ℕ
  pub tax_amount : ℕ
  pub discount_amount : ℕ
  pub total_amount : ℕ
  pub paid_amount : ℕ
  pub created_by : Option ℕ
  pub approved_by : Option ℕ
  pub approved_at : Option ℕ
  pub created_at : ℕ
  pub updated_at : ℕ

pub record PurchaseInvoiceLineRow : Type 0 where
  pub id : ℕ
  pub invoice_id : ℕ
  pub product_id : ℕ
  pub product_unit_id : ℕ
  pub batch_id : Option ℕ
  pub quantity : ℕ
  pub rate : ℕ
  pub discount_percent : ℕ
  pub gst_id : Option ℕ
  pub tax_amount : ℕ
  pub line_total : ℕ

pub record SupplierPaymentRow : Type 0 where
  pub id : ℕ
  pub payment_number : List ℕ
  pub payment_date : ℕ
  pub supplier_id : ℕ
  pub amount : ℕ
  pub payment_mode : PaymentMode
  pub reference_number : Option String
  pub remarks : Option String
  pub created_by : Option ℕ
  pub created_at : ℕ

pub record SupplierPaymentAllocationRow : Type 0 where
  pub id : ℕ
  pub payment_id : ℕ
  pub purchase_invoice_id : ℕ
  pub allocated_amount : ℕ

pub record PurchaseReturnRow : Type 0 where
  pub id : ℕ
  pub return_number : List ℕ
  pub return_date : ℕ
  pub supplier_id : ℕ
  pub purchase_invoice_id : Option ℕ
  pub warehouse_id : ℕ
  pub reason : Option String
  pub status : ApprovalStatus
  pub total_amount : ℕ
  pub created_by : Option ℕ
  pub approved_by : Option ℕ
  pub approved_at : Option ℕ
  pub created_at : ℕ
  pub updated_at : ℕ

pub record PurchaseReturnLineRow : Type 0 where
  pub id : ℕ
  pub return_id : ℕ
  pub product_id : ℕ
  pub batch_id : Option ℕ
  pub quantity : ℕ
  pub rate : ℕ
  pub line_total : ℕ

pub record SupplierRow : Type 0 where
  pub id : ℕ
  pub name : String

pub record PurchaseDb : Type 0 where
  pub suppliers : List SupplierRow
  pub purchase_orders : List PurchaseOrderRow
  pub purchase_order_lines : List PurchaseOrderLineRow
  pub goods_received_notes : List GoodsReceivedNoteRow
  pub grn_lines : List GrnLineRow
  pub purchase_invoices : List PurchaseInvoiceRow
  pub purchase_invoice_lines : List PurchaseInvoiceLineRow
  pub supplier_payments : List SupplierPaymentRow
  pub supplier_payment_allocations : List SupplierPaymentAllocationRow
  pub purchase_returns : List PurchaseReturnRow
  pub purchase_return_lines : List PurchaseReturnLineRow
