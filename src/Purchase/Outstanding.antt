-- ===== src/Purchase/Outstanding.antt =====
-- What is still owed on purchase invoices: v_outstanding_payables of database/views/001_reporting_views.sql,
-- and backend/src/modules/purchase: domain/outstanding-payable.entity.ts,
-- infrastructure/outstanding-payable.kysely-repository.ts.
use vrindavan.Base.{ℕ, String, ◌-◌, ◌≡◌, refl, subst, Option, some, List, All, ◌==◌, find_where}
use vrindavan.Exec.{gets, ok}
use vrindavan.Db.{Db, Trx, Clock, PurchaseInvoiceRow, SupplierRow}
use vrindavan.Trade.Payment.Laws.{IsSettled}
use vrindavan.Inventory.Document.RoundTrip.{Yield}
use vrindavan.Trade.Outstanding.{View, Owed, days_overdue_on, outstanding_rows, of_party, owed_rows}
use vrindavan.Trade.Outstanding.Statement.{IsStatement, of_party-Owed, of_party-IsStatement}
use vrindavan.Purchase.Payment

pub record OutstandingPayableRow : Type 0 where
  pub purchase_invoice_id : ℕ
  pub invoice_number : List ℕ
  pub invoice_date : ℕ
  pub due_date : Option ℕ
  pub supplier_id : ℕ
  pub supplier_name : String
  pub total_amount : ℕ
  pub paid_amount : ℕ
  pub outstanding_amount : ℕ
  pub days_overdue : ℕ

pub record OutstandingPayableFilters : Type 0 where
  pub supplier_id : Option ℕ

abbrev pub outstanding_row : ℕ → PurchaseInvoiceRow → SupplierRow → OutstandingPayableRow
outstanding_row today i c = record {
  purchase_invoice_id = i.id;
  invoice_number = i.invoice_number;
  invoice_date = i.invoice_date;
  due_date = i.due_date;
  supplier_id = c.id;
  supplier_name = c.name;
  total_amount = i.total_amount;
  paid_amount = i.paid_amount;
  outstanding_amount = i.total_amount - i.paid_amount;
  days_overdue = days_overdue_on today i.due_date;
}

abbrev pub outstanding_payables : View Payment.billing SupplierRow OutstandingPayableRow
outstanding_payables = record {
  party_id = λ c. c.id;
  row = outstanding_row;
  invoice_in = λ r. r.purchase_invoice_id;
  party_in = λ r. r.supplier_id;
  total_in = λ r. r.total_amount;
  outstanding_in = λ r. r.outstanding_amount;
  invoice_in_row = λ today i c. refl;
  party_in_row = λ today i c. refl;
  total_in_row = λ today i c. refl;
  outstanding_in_row = λ today i c. refl;
}

unfoldable pub find_outstanding_payables :
    Clock → OutstandingPayableFilters → Trx (List OutstandingPayableRow)
find_outstanding_payables clock filters = gets λ db.
    of_party outstanding_payables filters.supplier_id (
      outstanding_rows outstanding_payables clock.today db.purchase.suppliers
        db.purchase.purchase_invoices)

-- Where the invoices are settled, every row that the listing returns owes something, and what it
-- owes, together with what is allocated to its invoice, is the invoice's total.
pub find_outstanding_payables-Owed :
    (clock : Clock) (filters : OutstandingPayableFilters) (s t : Db)
    (rows : List OutstandingPayableRow)
    → IsSettled Payment.billing s
    → find_outstanding_payables clock filters s ≡ (ok rows, t)
    → All (Owed outstanding_payables s.purchase.supplier_payment_allocations) rows
unfolding find_outstanding_payables
find_outstanding_payables-Owed clock filters s t rows h returned =
    subst
      (Yield
        (λ rows u. All (Owed outstanding_payables s.purchase.supplier_payment_allocations) rows))
      returned
      (of_party-Owed outstanding_payables s.purchase.supplier_payment_allocations
        filters.supplier_id
        (outstanding_rows outstanding_payables clock.today s.purchase.suppliers
          s.purchase.purchase_invoices)
        (owed_rows outstanding_payables s.purchase.supplier_payment_allocations clock.today
          s.purchase.suppliers s.purchase.purchase_invoices h.settled))

-- For a supplier of the table, where the invoices are settled, the listing answers and changes
-- nothing. Its rows are of that supplier; each owes something, which with what is allocated to the
-- invoice makes up the invoice's total; and together they owe what is unpaid on all approved and
-- partially paid invoices of the supplier.
pub find_outstanding_payables-lists :
    (id : ℕ) (clock : Clock) (s : Db) (c : SupplierRow)
    → IsSettled Payment.billing s
    → find_where (λ c. c.id == id) s.purchase.suppliers ≡ some c
    → (rows : List OutstandingPayableRow) × find_outstanding_payables clock
          (record { supplier_id = some id })
          s
        ≡ (ok rows, s)
      × IsStatement outstanding_payables id s.purchase.purchase_invoices
          s.purchase.supplier_payment_allocations rows
unfolding find_outstanding_payables
find_outstanding_payables-lists id clock s c h found = (
  of_party outstanding_payables (some id) (
      outstanding_rows outstanding_payables clock.today s.purchase.suppliers
        s.purchase.purchase_invoices),
  refl,
  of_party-IsStatement outstanding_payables id clock.today s.purchase.suppliers c
      s.purchase.purchase_invoices s.purchase.supplier_payment_allocations h.settled found,
)
