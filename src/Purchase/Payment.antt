-- ===== src/Purchase/Payment.antt =====
-- SupplierPayment records (backend/src/modules/purchase: domain/supplier-payment.entity.ts,
-- infrastructure/supplier-payment.kysely-repository.ts).
use vrindavan.Base.{ℕ, ◌==◌, String, false, any, Option, List, get_or}
use vrindavan.Db.{
  DocumentType, Trx, Clock, SupplierPaymentRow, SupplierPaymentAllocationRow, PurchaseInvoiceRow,
  InvoiceStatus, PaymentMode,
}
use vrindavan.Tables.Purchase.{supplier_payments, supplier_payment_allocations, purchase_invoices}
use vrindavan.Inventory.Document.{Document, Loaded, find_all, find_document}
use vrindavan.Trade.Payment.{Billing, CreateAllocationProps, create_with_allocations}

pub record CreateSupplierPaymentProps : Type 0 where
  pub supplier_id : ℕ
  pub amount : ℕ
  pub payment_mode : PaymentMode
  pub payment_date : Option ℕ
  pub reference_number : Option String
  pub remarks : Option String
  pub allocations : List CreateAllocationProps

-- A payment has no status: it is never a draft.
abbrev pub document : Document SupplierPaymentRow SupplierPaymentAllocationRow
document = record {
  headers = supplier_payments;
  line_rows = supplier_payment_allocations;
  parent_of = λ l. l.payment_id;
  is_draft = λ h. false;
  date_of = λ h. h.payment_date;
  document_type = DocumentType.supplier_payment;
  prefix = "SPAY";
}

abbrev pub SupplierPayment : Type 0
SupplierPayment = Loaded SupplierPaymentRow SupplierPaymentAllocationRow

unfoldable pub find_supplier_payments_with_allocations : Trx (List SupplierPayment)
unfolding find_all
find_supplier_payments_with_allocations = find_all document

unfoldable pub find_supplier_payment : ℕ → Trx (Option SupplierPayment)
unfolding find_document
find_supplier_payment = find_document document

unfoldable pub header_values :
    Clock → CreateSupplierPaymentProps → Option ℕ → List ℕ → ℕ → SupplierPaymentRow
header_values clock props created_by number id = record {
  id = id;
  payment_number = number;
  payment_date = get_or props.payment_date clock.today;
  supplier_id = props.supplier_id;
  amount = props.amount;
  payment_mode = props.payment_mode;
  reference_number = props.reference_number;
  remarks = props.remarks;
  created_by = created_by;
  created_at = clock.now;
}

abbrev pub paid : Clock → ℕ → InvoiceStatus → PurchaseInvoiceRow → PurchaseInvoiceRow
paid clock amount status i = record i {
  paid_amount = amount;
  status = status;
  updated_at = clock.now;
}

abbrev pub allocation_values :
    SupplierPaymentRow → CreateAllocationProps → ℕ → SupplierPaymentAllocationRow
allocation_values header props id = record {
  id = id;
  payment_id = header.id;
  purchase_invoice_id = props.invoice_id;
  allocated_amount = props.allocated_amount;
}

abbrev pub billing : Billing SupplierPaymentRow SupplierPaymentAllocationRow PurchaseInvoiceRow
billing = record {
  payments = document;
  number_of = λ h. h.payment_number;
  amount_on = λ h. h.amount;
  has_party = λ h db. any (λ c. c.id == h.supplier_id) db.purchase.suppliers;
  invoices = purchase_invoices;
  party_of = λ i. i.supplier_id;
  total_of = λ i. i.total_amount;
  paid_of = λ i. i.paid_amount;
  status_of = λ i. i.status;
  pay = paid;
  invoice_of = λ a. a.purchase_invoice_id;
  amount_of = λ a. a.allocated_amount;
  new_allocation = allocation_values;
}

unfoldable pub create_supplier_payment :
    Clock → CreateSupplierPaymentProps → Option ℕ → Trx SupplierPayment
unfolding create_with_allocations header_values
create_supplier_payment clock props created_by =
    create_with_allocations billing clock props.supplier_id props.amount
      (header_values clock props created_by) props.allocations
