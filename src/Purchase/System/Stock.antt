-- ===== src/Purchase/System/Stock.antt =====
-- Each call of the purchase module keeps the invariant of the stock tables.
use vrindavan.Base.{ℕ, Option, refl}
use vrindavan.Exec.Within.{Within-bind, Within-gets, Within-weaken}
use vrindavan.Db.{Db, Clock}
use vrindavan.Stock.Consistent.{
  IsConsistent, Keeps, Keeps-preorder, post_stock_movement-IsConsistent,
}
use vrindavan.Stock.Posting.{live_balance_at}
use vrindavan.Inventory.Document.Laws.{
  IsDocument, IsConsistent-SameStock, approve_document-IsConsistent,
}
use vrindavan.Inventory.Document.Spares.{Spares, updated_row-Spares}
use vrindavan.Inventory.Document.Draft.{stock_tables, stock_tables-IsBlind, spared-IsConsistent}
use vrindavan.Trade.Fulfilment.Laws.Holds.{fulfil-holds}
use vrindavan.Purchase.Grn
use vrindavan.Purchase.Return
use vrindavan.Purchase.Billing
use vrindavan.Purchase.System.{Call, step}
use vrindavan.Purchase.System.Spares.{step-holds, bills-Spares}

abbrev return_document-IsDocument : IsDocument Return.document
return_document-IsDocument = record {
  rows-put = λ xs db. refl;
  rows-with_stock = λ s t. refl;
  ledger-put = λ xs db. refl;
  balances-put = λ xs db. refl;
}

complete_grn-IsConsistent :
    (clock : Clock) (id : ℕ) (s : Db)
    → IsConsistent s
    → IsConsistent (Grn.complete_grn clock id s).1
unfolding Grn.complete_grn Grn.stamp_completed Grn.post_line
complete_grn-IsConsistent clock id =
    fulfil-holds Grn.fulfils (Keeps-preorder IsConsistent) clock
      (λ h l k. post_stock_movement-IsConsistent clock (Grn.movement h l k))
      (λ id g. record { at = λ s. IsConsistent-SameStock s _ (refl, refl) })
      (λ id.
        Within-weaken (Spares stock_tables) (Keeps IsConsistent) _ spared-IsConsistent
          (updated_row-Spares stock_tables Grn.document.headers (λ xs db. (refl, refl)) id _))
      (λ g id. record { at = λ s. IsConsistent-SameStock s _ (refl, refl) }) id

approve_purchase_return-IsConsistent :
    (clock : Clock) (by : Option ℕ) (id : ℕ) (s : Db)
    → IsConsistent s
    → IsConsistent (Return.approve_purchase_return clock by id s).1
unfolding Return.approve_purchase_return Return.post_line
approve_purchase_return-IsConsistent clock by =
    approve_document-IsConsistent Return.document return_document-IsDocument
      (Return.post_line clock) (Return.stamp_approved clock by)
      (λ h l.
        let K = Keeps-preorder IsConsistent in
        Within-bind K _ _
          (Within-gets K (λ db. live_balance_at (Return.line_dims h l) db.stock_balances))
          λ b.
            post_stock_movement-IsConsistent clock
              (Return.movement h l (Return.cost_or_rate b l.rate)))

pub step-IsConsistent :
    (clock : Clock) (call : Call) (s : Db) → IsConsistent s → IsConsistent (step clock call s)
step-IsConsistent =
    step-holds stock_tables stock_tables-IsBlind
      (record {
        orders = λ xs db. (refl, refl);
        order_lines = λ xs db. (refl, refl);
        grns = λ xs db. (refl, refl);
        grn_lines = λ xs db. (refl, refl);
        returns = λ xs db. (refl, refl);
        return_lines = λ xs db. (refl, refl);
      })
      (Keeps IsConsistent) spared-IsConsistent
      (λ clock call s. spared-IsConsistent s (Billing.step clock call s) (
        bills-Spares stock_tables stock_tables-IsBlind (λ xs db. (refl, refl))
          (λ xs db. (refl, refl)) (λ xs db. (refl, refl)) (λ xs db. (refl, refl)) clock call s))
      complete_grn-IsConsistent approve_purchase_return-IsConsistent
