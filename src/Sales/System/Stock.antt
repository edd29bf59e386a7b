-- ===== src/Sales/System/Stock.antt =====
-- Each call of the sales module keeps the invariant of the stock tables.
use vrindavan.Base.{ℕ, Option, refl}
use vrindavan.Exec.Within.{Within-bind, Within-gets, Within-weaken}
use vrindavan.Db.{Db, Clock}
use vrindavan.Stock.Consistent.{
  IsConsistent, Keeps, Keeps-preorder, post_stock_movement-IsConsistent,
}
use vrindavan.Stock.Posting.{live_balance_at}
use vrindavan.Inventory.Return.{return_cost}
use vrindavan.Inventory.Document.Laws.{
  IsDocument, IsConsistent-SameStock, approve_document-IsConsistent,
}
use vrindavan.Inventory.Document.Spares.{Spares, updated_row-Spares}
use vrindavan.Inventory.Document.Draft.{stock_tables, stock_tables-IsBlind, spared-IsConsistent}
use vrindavan.Trade.Fulfilment.Laws.Holds.{fulfil-holds}
use vrindavan.Sales.Challan.Delivered
use vrindavan.Sales.Challan
use vrindavan.Sales.Return
use vrindavan.Sales.Billing
use vrindavan.Sales.System.{Call, step}
use vrindavan.Sales.System.Spares.{step-holds, bills-Spares}

abbrev return_document-IsDocument : IsDocument Return.document
return_document-IsDocument = record {
  rows-put = λ xs db. refl;
  rows-with_stock = λ s t. refl;
  ledger-put = λ xs db. refl;
  balances-put = λ xs db. refl;
}

deliver-IsConsistent :
    (clock : Clock) (id : ℕ) (s : Db) → IsConsistent s → IsConsistent (Challan.deliver clock id s).1
unfolding Challan.deliver Challan.stamp_delivered
deliver-IsConsistent clock id =
    fulfil-holds Challan.fulfils (Keeps-preorder IsConsistent) clock
      (Delivered.post_line-Within (Keeps-preorder IsConsistent) clock
        (post_stock_movement-IsConsistent clock))
      (λ id g. record { at = λ s. IsConsistent-SameStock s _ (refl, refl) })
      (λ id.
        Within-weaken (Spares stock_tables) (Keeps IsConsistent) _ spared-IsConsistent
          (updated_row-Spares stock_tables Challan.document.headers (λ xs db. (refl, refl)) id _))
      (λ g id. record { at = λ s. IsConsistent-SameStock s _ (refl, refl) }) id

approve_sales_return-IsConsistent :
    (clock : Clock) (by : Option ℕ) (id : ℕ) (s : Db)
    → IsConsistent s
    → IsConsistent (Return.approve_sales_return clock by id s).1
unfolding Return.approve_sales_return Return.post_line
approve_sales_return-IsConsistent clock by =
    approve_document-IsConsistent Return.document return_document-IsDocument
      (Return.post_line clock) (Return.stamp_approved clock by)
      (λ h l.
        let K = Keeps-preorder IsConsistent in
        Within-bind K _ _
          (Within-gets K (λ db. live_balance_at (Return.line_dims h l) db.stock_balances))
          λ b.
            Within-bind K _ _ (Within-gets K (return_cost b l.product_id))
              λ c. post_stock_movement-IsConsistent clock (Return.movement h l c))

pub step-IsConsistent :
    (clock : Clock) (call : Call) (s : Db) → IsConsistent s → IsConsistent (step clock call s)
step-IsConsistent =
    step-holds stock_tables stock_tables-IsBlind
      (record {
        orders = λ xs db. (refl, refl);
        order_lines = λ xs db. (refl, refl);
        quotations = λ xs db. (refl, refl);
        quotation_lines = λ xs db. (refl, refl);
        challans = λ xs db. (refl, refl);
        challan_lines = λ xs db. (refl, refl);
        returns = λ xs db. (refl, refl);
        return_lines = λ xs db. (refl, refl);
      })
      (Keeps IsConsistent) spared-IsConsistent
      (λ clock call s. spared-IsConsistent s (Billing.step clock call s) (
        bills-Spares stock_tables stock_tables-IsBlind (λ xs db. (refl, refl))
          (λ xs db. (refl, refl)) (λ xs db. (refl, refl)) (λ xs db. (refl, refl)) clock call s))
      deliver-IsConsistent approve_sales_return-IsConsistent
