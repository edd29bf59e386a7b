-- ===== src/Examples/Payments.antt =====
-- Payments of the example company, and what is left to be paid.
use vrindavan.Base.{Bool, ℕ, ◌≡◌, refl, true, none, some, List, [], ◌∷◌, map, arith}
use vrindavan.Exec.{ok, err}
use vrindavan.Db.{
  Clock, InvoiceStatus, PaymentMode, invalid_allocation, foreign_key_violation, Error,
}
use vrindavan.Numbering.{next_document_number, type_code, alphanumeric, lpad_five}
use vrindavan.Trade.Payment.{exceeds, status_after}
use vrindavan.Trade.Payment.Laws.{IsSettled}
use vrindavan.Sales.Payment
use vrindavan.Sales.Billing
use vrindavan.Sales.Billing.{create_payment, run_sales, run_sales-IsSettled}
use vrindavan.Sales.Outstanding.{
  outstanding_receivables, find_outstanding_receivables-lists, OutstandingReceivableRow,
  find_outstanding_receivables,
}
use vrindavan.Trade.Outstanding.Statement.{IsStatement}
use vrindavan.Inventory.Services.{bad_request, message_of}
use vrindavan.Sales.Services.{customer_payments_service}
use vrindavan.Sales.Services.Failures.{customer_payments_service-fails}
use vrindavan.Examples.{noon}
use vrindavan.Trade.Services.Failures.{is_refusal}
use vrindavan.Examples.Sales.{market, customer, invoice}

abbrev pub paying : ℕ → Payment.CreateCustomerPaymentProps
paying amount = record {
  customer_id = 4;
  amount = amount;
  payment_mode = PaymentMode.cash;
  payment_date = none;
  reference_number = none;
  remarks = none;
  allocations = record { invoice_id = 80; allocated_amount = amount } ∷ [];
}

-- The second payment is for more than is left.
abbrev bills : List (Clock × Billing.Call)
bills =
    (noon, create_payment (paying 300) none)
    ∷ (noon, create_payment (paying 600) none)
    ∷ (noon, create_payment (paying 500) none)
    ∷ []

pub market-IsSettled : IsSettled Payment.billing market
market-IsSettled = record {
  numbered = (omega arith, tt);
  unique = (tt, tt);
  settled = ((refl, omega arith), tt);
  referenced = tt;
}

-- It is paid in full by the other two.
invoice_paid :
    map {B = InvoiceStatus × ℕ}
      (λ i. (i.status, i.paid_amount))
      (run_sales bills market).sales.sales_invoices
    ≡ (InvoiceStatus.paid, 800) ∷ []
unfolding run_sales Payment.create_customer_payment next_document_number type_code alphanumeric
    lpad_five
invoice_paid = refl

find_outstanding_receivables-lists_example :
    (rows : List OutstandingReceivableRow) × find_outstanding_receivables noon
        (record { customer_id = some 4 })
        market
      ≡ (ok rows, market)
    × IsStatement outstanding_receivables 4 market.sales.sales_invoices
        market.sales.customer_payment_allocations rows
find_outstanding_receivables-lists_example =
    find_outstanding_receivables-lists 4 noon market customer market-IsSettled refl

-- Nothing is left on the paid invoice.
statement_after :
    (find_outstanding_receivables noon (record { customer_id = some 4 }) (run_sales bills market)).0
    ≡ ok []
unfolding find_outstanding_receivables run_sales Payment.create_customer_payment
    next_document_number type_code alphanumeric lpad_five
statement_after = refl

abbrev twice : Payment.CreateCustomerPaymentProps
twice = record (paying 900) {
  allocations =
      record { invoice_id = 80; allocated_amount = 500 }
      ∷ record { invoice_id = 80; allocated_amount = 400 }
      ∷ [];
}

abbrev refused : Error
refused = invalid_allocation (some 80)

-- In doubles, 0.3 - 0.1 is less than 0.2, and 0.7 + 0.1 is less than 0.8.
exact_payment_refused :
    exceeds Payment.billing 20 (record invoice { total_amount = 30; paid_amount = 10 }) ≡ Bool.true
unfolding exceeds
exact_payment_refused = refl

last_cent_missed :
    status_after Payment.billing 10 (record invoice { total_amount = 80; paid_amount = 70 })
    ≡ InvoiceStatus.partially_paid
unfolding status_after
last_cent_missed = refl

-- A customer that is not there.
unknown_customer :
    (Payment.create_customer_payment noon (record (paying 300) { customer_id = 9 }) none market).0
    ≡ err foreign_key_violation
unfolding Payment.create_customer_payment next_document_number
unknown_customer = refl

-- The first allocation is met, and undone when the second is for more than is left.
customer_payments_service-fails_example :
    (is_refusal (bad_request (message_of refused)) ≡ true) × (market ≡ market)
customer_payments_service-fails_example =
    customer_payments_service-fails noon twice none market market (bad_request (message_of refused))
      (unfold customer_payments_service in
        unfold Payment.create_customer_payment in
        unfold next_document_number in unfold type_code in refl)
