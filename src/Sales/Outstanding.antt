-- ===== src/Sales/Outstanding.antt =====
-- What is still owed on sales invoices: v_outstanding_receivables of database/views/001_reporting_views.sql,
-- and backend/src/modules/sales: domain/outstanding-receivable.entity.ts,
-- infrastructure/outstanding-receivable.kysely-repository.ts.
use vrindavan.Base.{ℕ, String, ◌-◌, ◌≡◌, refl, subst, Option, some, List, All, ◌==◌, find_where}
use vrindavan.Exec.{gets, ok}
use vrindavan.Db.{Db, Trx, Clock, SalesInvoiceRow, CustomerRow}
use vrindavan.Trade.Payment.Laws.{IsSettled}
use vrindavan.Inventory.Document.RoundTrip.{Yield}
use vrindavan.Trade.Outstanding.{View, Owed, days_overdue_on, outstanding_rows, of_party, owed_rows}
use vrindavan.Trade.Outstanding.Statement.{IsStatement, of_party-Owed, of_party-IsStatement}
use vrindavan.Sales.Payment

pub record OutstandingReceivableRow : Type 0 where
  pub sales_invoice_id : ℕ
  pub invoice_number : List ℕ
  pub invoice_date : ℕ
  pub due_date : Option ℕ
  pub customer_id : ℕ
  pub customer_name : String
  pub total_amount : ℕ
  pub paid_amount : ℕ
  pub outstanding_amount : ℕ
  pub days_overdue : ℕ

pub record OutstandingReceivableFilters : Type 0 where
  pub customer_id : Option ℕ

abbrev pub outstanding_row : ℕ → SalesInvoiceRow → CustomerRow → OutstandingReceivableRow
outstanding_row today i c = record {
  sales_invoice_id = i.id;
  invoice_number = i.invoice_number;
  invoice_date = i.invoice_date;
  due_date = i.due_date;
  customer_id = c.id;
  customer_name = c.name;
  total_amount = i.total_amount;
  paid_amount = i.paid_amount;
  outstanding_amount = i.total_amount - i.paid_amount;
  days_overdue = days_overdue_on today i.due_date;
}

abbrev pub outstanding_receivables : View Payment.billing CustomerRow OutstandingReceivableRow
outstanding_receivables = record {
  party_id = λ c. c.id;
  row = outstanding_row;
  invoice_in = λ r. r.sales_invoice_id;
  party_in = λ r. r.customer_id;
  total_in = λ r. r.total_amount;
  outstanding_in = λ r. r.outstanding_amount;
  invoice_in_row = λ today i c. refl;
  party_in_row = λ today i c. refl;
  total_in_row = λ today i c. refl;
  outstanding_in_row = λ today i c. refl;
}

unfoldable pub find_outstanding_receivables :
    Clock → OutstandingReceivableFilters → Trx (List OutstandingReceivableRow)
find_outstanding_receivables clock filters = gets λ db.
    of_party outstanding_receivables filters.customer_id (
      outstanding_rows outstanding_receivables clock.today db.sales.customers
        db.sales.sales_invoices)

-- Where the invoices are settled, every row that the listing returns owes something, and what it
-- owes, together with what is allocated to its invoice, is the invoice's total.
pub find_outstanding_receivables-Owed :
    (clock : Clock) (filters : OutstandingReceivableFilters) (s t : Db)
    (rows : List OutstandingReceivableRow)
    → IsSettled Payment.billing s
    → find_outstanding_receivables clock filters s ≡ (ok rows, t)
    → All (Owed outstanding_receivables s.sales.customer_payment_allocations) rows
unfolding find_outstanding_receivables
find_outstanding_receivables-Owed clock filters s t rows h returned =
    subst
      (Yield
        (λ rows u. All (Owed outstanding_receivables s.sales.customer_payment_allocations) rows))
      returned
      (of_party-Owed outstanding_receivables s.sales.customer_payment_allocations
        filters.customer_id
        (outstanding_rows outstanding_receivables clock.today s.sales.customers
          s.sales.sales_invoices)
        (owed_rows outstanding_receivables s.sales.customer_payment_allocations clock.today
          s.sales.customers s.sales.sales_invoices h.settled))

-- For a customer of the table, where the invoices are settled, the listing answers and changes
-- nothing. Its rows are of that customer; each owes something, which with what is allocated to the
-- invoice makes up the invoice's total; and together they owe what is unpaid on all approved and
-- partially paid invoices of the customer.
pub find_outstanding_receivables-lists :
    (id : ℕ) (clock : Clock) (s : Db) (c : CustomerRow)
    → IsSettled Payment.billing s
    → find_where (λ c. c.id == id) s.sales.customers ≡ some c
    → (rows : List OutstandingReceivableRow) × find_outstanding_receivables clock
          (record { customer_id = some id })
          s
        ≡ (ok rows, s)
      × IsStatement outstanding_receivables id s.sales.sales_invoices
          s.sales.customer_payment_allocations rows
unfolding find_outstanding_receivables
find_outstanding_receivables-lists id clock s c h found = (
  of_party outstanding_receivables (some id) (
      outstanding_rows outstanding_receivables clock.today s.sales.customers
        s.sales.sales_invoices),
  refl,
  of_party-IsStatement outstanding_receivables id clock.today s.sales.customers c
      s.sales.sales_invoices s.sales.customer_payment_allocations h.settled found,
)
