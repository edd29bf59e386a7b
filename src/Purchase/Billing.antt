-- ===== src/Purchase/Billing.antt =====
-- Invoices and payments over time: the calls that the purchase services make on both, in any order
-- (backend/src/modules/purchase/application/purchase-invoice.service.ts and supplier-payment.service.ts).
use vrindavan.Base.{ℕ, ◌==◌, ◌&&◌, Option, refl, List, [], ◌∷◌}
use vrindavan.Db.{Db, Clock}
use vrindavan.Stock.Consistent.{Keeps-preorder}
use vrindavan.Tables.{delete_all}
use vrindavan.Inventory.Document.{delete_document}
use vrindavan.Exec.Within.{Within-bind, Within-pure}
use vrindavan.Trade.Document.Laws.{
  get_current_financial_year_id-holds, create_priced-holds, transition-holds,
}
use vrindavan.Trade.Payment.Settled.{IsBilling}
use vrindavan.Trade.Payment.Laws.{IsSettled, IsApart, next_document_number-IsSettled}
use vrindavan.Trade.Payment.Laws.Calls.{
  other_row-IsSettled, invoice_row-IsSettled, stamped_invoice-IsSettled, deleted_invoices-IsSettled,
  deleted_rows-IsSettled, create_with_allocations-IsSettled,
}
use vrindavan.Purchase.Invoice
use vrindavan.Purchase.Payment

abbrev pub billing-IsBilling : IsBilling Payment.billing
billing-IsBilling = record {
  pay-id = λ c p st i. refl;
  pay-paid = λ c p st i. refl;
  pay-total = λ c p st i. refl;
  invoice-new = λ h p id. refl;
  amount-new = λ h p id. refl;
}

abbrev pub billing-IsApart : IsApart Payment.billing
billing-IsApart = record {
  headers-put = λ xs db. (refl, refl, refl);
  sequences = λ s t. (refl, refl, refl);
  invoices-put = λ xs db. (refl, refl, refl);
  allocations-put = λ xs db. (refl, refl, refl);
  drawn-rows = λ s. (refl, refl);
}

pub data Call : Type 0 where
  create_invoice : Invoice.CreatePurchaseInvoiceProps → Option ℕ → Call
  approve_invoice : Option ℕ → ℕ → Call
  delete_invoice : ℕ → Call
  create_payment : Payment.CreateSupplierPaymentProps → Option ℕ → Call

-- The database after a call, whether it returned or threw.
unfoldable pub step : Clock → Call → Db → Db
step clock (create_invoice props by) s = (Invoice.create_purchase_invoice clock props by s).1
step clock (approve_invoice by id) s = (Invoice.approve_purchase_invoice clock by id s).1
step clock (delete_invoice id) s = (Invoice.delete_purchase_invoice id s).1
step clock (create_payment props by) s = (Payment.create_supplier_payment clock props by s).1

unfoldable pub run_purchases : List (Clock × Call) → Db → Db
unfolding step
run_purchases [] s = s
run_purchases ((clock, call) ∷ rest) s = run_purchases rest (step clock call s)

create_purchase_invoice-IsSettled :
    (clock : Clock) (props : Invoice.CreatePurchaseInvoiceProps) (by : Option ℕ) (s : Db)
    → IsSettled Payment.billing s
    → IsSettled Payment.billing (Invoice.create_purchase_invoice clock props by s).1
unfolding Invoice.create_purchase_invoice Invoice.header_values Invoice.line_values
create_purchase_invoice-IsSettled clock props by =
    create_priced-holds Invoice.document (Keeps-preorder (IsSettled Payment.billing))
      (Invoice.pricing clock props by) props.lines
      (get_current_financial_year_id-holds (Keeps-preorder (IsSettled Payment.billing)))
      (next_document_number-IsSettled Payment.billing billing-IsApart billing-IsBilling _ _)
      (λ y cs n.
        invoice_row-IsSettled Payment.billing billing-IsApart Invoice.document _ (λ id. refl)
          (λ id. refl))
      (λ h p c.
        other_row-IsSettled Payment.billing billing-IsApart Invoice.document
          Invoice.document.line_rows (λ xs db. (refl, refl, refl)) _)

approve_purchase_invoice-IsSettled :
    (clock : Clock) (by : Option ℕ) (id : ℕ) (s : Db)
    → IsSettled Payment.billing s
    → IsSettled Payment.billing (Invoice.approve_purchase_invoice clock by id s).1
unfolding Invoice.approve_purchase_invoice Invoice.approved_by_at
approve_purchase_invoice-IsSettled clock by id =
    transition-holds Invoice.document (Keeps-preorder (IsSettled Payment.billing)) _ _ id (
      stamped_invoice-IsSettled Payment.billing billing-IsApart _ id (λ i. refl) (λ i. refl)
        (λ i. refl))

-- Deleting is not wrapped in a transaction, and its two statements do not throw.
delete_purchase_invoice-IsSettled :
    (id : ℕ) (s : Db)
    → IsSettled Payment.billing s
    → IsSettled Payment.billing (Invoice.delete_purchase_invoice id s).1
unfolding Invoice.delete_purchase_invoice delete_document
delete_purchase_invoice-IsSettled id =
    (Within-bind (Keeps-preorder (IsSettled Payment.billing))
      (delete_all Invoice.document.headers _) _
      (deleted_invoices-IsSettled Payment.billing billing-IsApart _)
      λ d.
        Within-bind (Keeps-preorder (IsSettled Payment.billing))
          (delete_all Invoice.document.line_rows _) _
          (deleted_rows-IsSettled Payment.billing billing-IsApart Invoice.document.line_rows
            (λ xs db. (refl, refl, refl)) (λ l. d && l.invoice_id == id))
          λ l. Within-pure (Keeps-preorder (IsSettled Payment.billing)) d).at

create_supplier_payment-IsSettled :
    (clock : Clock) (props : Payment.CreateSupplierPaymentProps) (by : Option ℕ) (s : Db)
    → IsSettled Payment.billing s
    → IsSettled Payment.billing (Payment.create_supplier_payment clock props by s).1
unfolding Payment.create_supplier_payment
create_supplier_payment-IsSettled clock props by =
    create_with_allocations-IsSettled Payment.billing billing-IsApart billing-IsBilling clock
      props.supplier_id props.amount (Payment.header_values clock props by) props.allocations

pub step-IsSettled :
    (clock : Clock) (call : Call) (s : Db)
    → IsSettled Payment.billing s
    → IsSettled Payment.billing (step clock call s)
unfolding step
step-IsSettled clock (create_invoice props by) = create_purchase_invoice-IsSettled clock props by
step-IsSettled clock (approve_invoice by id) = approve_purchase_invoice-IsSettled clock by id
step-IsSettled clock (delete_invoice id) = delete_purchase_invoice-IsSettled id
step-IsSettled clock (create_payment props by) = create_supplier_payment-IsSettled clock props by

-- After any history of making, approving and deleting purchase invoices and of recording supplier
-- payments, from a database in which it holds: no two invoices have one id, the paid amount of every
-- invoice is the sum of the allocations to it, and it is at most the invoice's total. This holds
-- whichever of the calls throw.
pub run_purchases-IsSettled :
    (history : List (Clock × Call)) (s : Db)
    → IsSettled Payment.billing s
    → IsSettled Payment.billing (run_purchases history s)
unfolding run_purchases
run_purchases-IsSettled [] s h = h
run_purchases-IsSettled ((clock, call) ∷ rest) s h =
    run_purchases-IsSettled rest (step clock call s) (step-IsSettled clock call s h)
