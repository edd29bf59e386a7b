-- ===== src/Tenant/Settled.antt =====
-- A tenant's invoices under the calls of all three modules: sales invoices with the payments of
-- customers, and purchase invoices with the payments to suppliers.
use vrindavan.Base.{ap, refl, List, [], ◌∷◌}
use vrindavan.Db.{
  Db, Clock, SalesDb, PurchaseDb, SalesInvoiceRow, CustomerPaymentAllocationRow, PurchaseInvoiceRow,
  SupplierPaymentAllocationRow,
}
use vrindavan.Stock.Consistent.{Keeps}
use vrindavan.Inventory.Document.Spares.{IsBlind}
use vrindavan.Trade.Payment.Laws.{IsSettled}
use vrindavan.Trade.Payment.Laws.Later.{spared-IsSettled}
use vrindavan.Inventory
use vrindavan.Inventory.System.Spares.{trade}
use vrindavan.Sales
use vrindavan.Purchase
use vrindavan.Tenant.{Call, step, run_calls, inventory, sales, purchase}

-- What the sales side's invoices are settled by.
abbrev sales_bills : Db → List SalesInvoiceRow × List CustomerPaymentAllocationRow
sales_bills db = (db.sales.sales_invoices, db.sales.customer_payment_allocations)

abbrev sales_tables : Db → SalesDb
sales_tables db = db.sales

sales_tables-IsBlind : IsBlind sales_tables
sales_tables-IsBlind = record { draws = λ s. refl; numbers = λ s t. refl }

sales_step-IsSettled :
    (clock : Clock) (call : Call) (s : Db)
    → IsSettled Sales.Payment.billing s
    → IsSettled Sales.Payment.billing (step clock call s)
unfolding step
sales_step-IsSettled clock (inventory call) = λ s.
    spared-IsSettled Sales.Payment.billing trade
      (λ s t e. (ap (λ x. x.0.sales_invoices) e, ap (λ x. x.0.customer_payment_allocations) e)) s
      (Inventory.System.step clock call s) (Inventory.System.Spares.step-Spares clock call s)
sales_step-IsSettled clock (sales call) =
    Sales.System.Spares.stockless_step-holds sales_bills
      (record { draws = λ s. refl; numbers = λ s t. refl })
      (record {
        orders = λ xs db. (refl, refl);
        order_lines = λ xs db. (refl, refl);
        quotations = λ xs db. (refl, refl);
        quotation_lines = λ xs db. (refl, refl);
        challans = λ xs db. (refl, refl);
        challan_lines = λ xs db. (refl, refl);
        returns = λ xs db. (refl, refl);
        return_lines = λ xs db. (refl, refl);
      })
      (λ s t. refl) (Keeps (IsSettled Sales.Payment.billing))
      (spared-IsSettled Sales.Payment.billing sales_bills
        (λ s t e. (ap (λ x. x.0) e, ap (λ x. x.1) e)))
      Sales.Billing.step-IsSettled clock call
sales_step-IsSettled clock (purchase call) =
    let spared =
      spared-IsSettled Sales.Payment.billing sales_tables
        (λ s t e. (ap (λ x. x.sales_invoices) e, ap (λ x. x.customer_payment_allocations) e)) in
    Purchase.System.Spares.stockless_step-holds sales_tables sales_tables-IsBlind
      (record {
        orders = λ xs db. (refl, refl);
        order_lines = λ xs db. (refl, refl);
        grns = λ xs db. (refl, refl);
        grn_lines = λ xs db. (refl, refl);
        returns = λ xs db. (refl, refl);
        return_lines = λ xs db. (refl, refl);
      })
      (λ s t. refl) (Keeps (IsSettled Sales.Payment.billing)) spared
      (λ clock call s. spared s (Purchase.Billing.step clock call s) (
        Purchase.System.Spares.bills-Spares sales_tables sales_tables-IsBlind
          (λ xs db. (refl, refl)) (λ xs db. (refl, refl)) (λ xs db. (refl, refl))
          (λ xs db. (refl, refl)) clock call s))
      clock call

-- What the purchase side's invoices are settled by.
abbrev purchase_bills : Db → List PurchaseInvoiceRow × List SupplierPaymentAllocationRow
purchase_bills db = (db.purchase.purchase_invoices, db.purchase.supplier_payment_allocations)

abbrev purchase_tables : Db → PurchaseDb
purchase_tables db = db.purchase

purchase_tables-IsBlind : IsBlind purchase_tables
purchase_tables-IsBlind = record { draws = λ s. refl; numbers = λ s t. refl }

purchase_step-IsSettled :
    (clock : Clock) (call : Call) (s : Db)
    → IsSettled Purchase.Payment.billing s
    → IsSettled Purchase.Payment.billing (step clock call s)
unfolding step
purchase_step-IsSettled clock (inventory call) = λ s.
    spared-IsSettled Purchase.Payment.billing trade
      (λ s t e. (ap (λ x. x.1.purchase_invoices) e, ap (λ x. x.1.supplier_payment_allocations) e)) s
      (Inventory.System.step clock call s) (Inventory.System.Spares.step-Spares clock call s)
purchase_step-IsSettled clock (purchase call) =
    Purchase.System.Spares.stockless_step-holds purchase_bills
      (record { draws = λ s. refl; numbers = λ s t. refl })
      (record {
        orders = λ xs db. (refl, refl);
        order_lines = λ xs db. (refl, refl);
        grns = λ xs db. (refl, refl);
        grn_lines = λ xs db. (refl, refl);
        returns = λ xs db. (refl, refl);
        return_lines = λ xs db. (refl, refl);
      })
      (λ s t. refl) (Keeps (IsSettled Purchase.Payment.billing))
      (spared-IsSettled Purchase.Payment.billing purchase_bills
        (λ s t e. (ap (λ x. x.0) e, ap (λ x. x.1) e)))
      Purchase.Billing.step-IsSettled clock call
purchase_step-IsSettled clock (sales call) =
    let spared =
      spared-IsSettled Purchase.Payment.billing purchase_tables
        (λ s t e. (ap (λ x. x.purchase_invoices) e, ap (λ x. x.supplier_payment_allocations) e)) in
    Sales.System.Spares.stockless_step-holds purchase_tables purchase_tables-IsBlind
      (record {
        orders = λ xs db. (refl, refl);
        order_lines = λ xs db. (refl, refl);
        quotations = λ xs db. (refl, refl);
        quotation_lines = λ xs db. (refl, refl);
        challans = λ xs db. (refl, refl);
        challan_lines = λ xs db. (refl, refl);
        returns = λ xs db. (refl, refl);
        return_lines = λ xs db. (refl, refl);
      })
      (λ s t. refl) (Keeps (IsSettled Purchase.Payment.billing)) spared
      (λ clock call s. spared s (Sales.Billing.step clock call s) (
        Sales.System.Spares.bills-Spares purchase_tables purchase_tables-IsBlind
          (λ xs db. (refl, refl)) (λ xs db. (refl, refl)) (λ xs db. (refl, refl))
          (λ xs db. (refl, refl)) clock call s))
      clock call

-- After any history of calls of the inventory, sales and purchase modules, from a database in which
-- it holds, of the sales invoices with the payments of customers and of the purchase invoices with
-- the payments to suppliers: no two invoices have one id, the paid amount of every invoice is the
-- sum of the allocations to it, and it is at most the invoice's total. This holds whichever of the
-- calls throw.
pub run_calls-IsSettled :
    (history : List (Clock × Call)) (s : Db)
    → IsSettled Sales.Payment.billing s
    → IsSettled Purchase.Payment.billing s
    → IsSettled Sales.Payment.billing (run_calls history s)
      × IsSettled Purchase.Payment.billing (run_calls history s)
unfolding run_calls
run_calls-IsSettled [] s h k = (h, k)
run_calls-IsSettled ((clock, call) ∷ rest) s h k =
    run_calls-IsSettled rest (step clock call s) (sales_step-IsSettled clock call s h)
      (purchase_step-IsSettled clock call s k)
