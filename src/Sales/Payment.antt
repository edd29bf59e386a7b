-- ===== src/Sales/Payment.antt =====
-- CustomerPayment records (backend/src/modules/sales: domain/customer-payment.entity.ts,
-- infrastructure/customer-payment.kysely-repository.ts).
use vrindavan.Base.{ℕ, ◌==◌, String, false, any, Option, List, get_or}
use vrindavan.Db.{
  DocumentType, Trx, Clock, CustomerPaymentRow, CustomerPaymentAllocationRow, SalesInvoiceRow,
  InvoiceStatus, PaymentMode,
}
use vrindavan.Tables.Sales.{customer_payments, customer_payment_allocations, sales_invoices}
use vrindavan.Inventory.Document.{Document, Loaded, find_all, find_document}
use vrindavan.Trade.Payment.{Billing, CreateAllocationProps, create_with_allocations}

pub record CreateCustomerPaymentProps : Type 0 where
  pub customer_id : ℕ
  pub amount : ℕ
  pub payment_mode : PaymentMode
  pub payment_date : Option ℕ
  pub reference_number : Option String
  pub remarks : Option String
  pub allocations : List CreateAllocationProps

-- A payment has no status: it is never a draft.
abbrev pub document : Document CustomerPaymentRow CustomerPaymentAllocationRow
document = record {
  headers = customer_payments;
  line_rows = customer_payment_allocations;
  parent_of = λ l. l.payment_id;
  is_draft = λ h. false;
  date_of = λ h. h.payment_date;
  document_type = DocumentType.customer_payment;
  prefix = "CPAY";
}

abbrev pub CustomerPayment : Type 0
CustomerPayment = Loaded CustomerPaymentRow CustomerPaymentAllocationRow

unfoldable pub find_customer_payments_with_allocations : Trx (List CustomerPayment)
unfolding find_all
find_customer_payments_with_allocations = find_all document

unfoldable pub find_customer_payment : ℕ → Trx (Option CustomerPayment)
unfolding find_document
find_customer_payment = find_document document

unfoldable pub header_values :
    Clock → CreateCustomerPaymentProps → Option ℕ → List ℕ → ℕ → CustomerPaymentRow
header_values clock props created_by number id = record {
  id = id;
  payment_number = number;
  payment_date = get_or props.payment_date clock.today;
  customer_id = props.customer_id;
  amount = props.amount;
  payment_mode = props.payment_mode;
  reference_number = props.reference_number;
  remarks = props.remarks;
  created_by = created_by;
  created_at = clock.now;
}

abbrev pub paid : Clock → ℕ → InvoiceStatus → SalesInvoiceRow → SalesInvoiceRow
paid clock amount status i = record i {
  paid_amount = amount;
  status = status;
  updated_at = clock.now;
}

abbrev pub allocation_values :
    CustomerPaymentRow → CreateAllocationProps → ℕ → CustomerPaymentAllocationRow
allocation_values header props id = record {
  id = id;
  payment_id = header.id;
  sales_invoice_id = props.invoice_id;
  allocated_amount = props.allocated_amount;
}

abbrev pub billing : Billing CustomerPaymentRow CustomerPaymentAllocationRow SalesInvoiceRow
billing = record {
  payments = document;
  number_of = λ h. h.payment_number;
  amount_on = λ h. h.amount;
  has_party = λ h db. any (λ c. c.id == h.customer_id) db.sales.customers;
  invoices = sales_invoices;
  party_of = λ i. i.customer_id;
  total_of = λ i. i.total_amount;
  paid_of = λ i. i.paid_amount;
  status_of = λ i. i.status;
  pay = paid;
  invoice_of = λ a. a.sales_invoice_id;
  amount_of = λ a. a.allocated_amount;
  new_allocation = allocation_values;
}

unfoldable pub create_customer_payment :
    Clock → CreateCustomerPaymentProps → Option ℕ → Trx CustomerPayment
unfolding create_with_allocations header_values
create_customer_payment clock props created_by =
    create_with_allocations billing clock props.customer_id props.amount
      (header_values clock props created_by) props.allocations
