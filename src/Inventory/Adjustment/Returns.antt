-- ===== src/Inventory/Adjustment/Returns.antt =====
-- Approving a stock adjustment succeeds on a draft whose targets cover what is held (`approve` of
-- stock-adjustment.kysely-repository.ts).
use vrindavan.Base.{
  ap, sym, ◌∙◌, false, ℕ, ◌≤◌, ◌≡◌, refl, true, inl, inr, Option, some, arith, All, find_where,
  ◌==◌, Bool-cases,
}
use vrindavan.Exec.{ok}
use vrindavan.Db.{Db, Clock, AdjustmentRow, AdjustmentLineRow}
use vrindavan.Tables.{has_id, stock_adjustments}
use vrindavan.Stock.Balances.{held_at}
use vrindavan.Stock.Consistent.{IsConsistent}
use vrindavan.Stock.Flow.{on_hand}
use vrindavan.Stock.Guard.{quantity_of-eq}
use vrindavan.Stock.Posting.{live_balance_at, quantity_of, cost_of}
use vrindavan.Stock.Verdict.{verdict}
use vrindavan.Inventory.Document.{lines_for}
use vrindavan.Inventory.Document.Returns.{Returned, is_ok, approve_document-Returned}
use vrindavan.Inventory.Document.Posted.{HoldsAsIn, post_stock_movement-HoldsAsIn}
use vrindavan.Inventory.Adjustment.{
  document, line_dims, movement, post_line, stamp_approved, approve_adjustment,
}
use vrindavan.Inventory.Adjustment.Approval.{document-IsDocument, stock_of, post_line-OnlyStock}

-- The target of a line covers what is reserved and blocked of its stock.
abbrev pub CoversHeld : Db → AdjustmentRow → AdjustmentLineRow → Type 0
CoversHeld s h l = held_at (stock_of h l) s.stock_balances ≤ l.adjusted_quantity

to_target :
    (h : AdjustmentRow) (l : AdjustmentLineRow) (cost : ℕ) (s t : Db)
    → CoversHeld s h l
    → (l.adjusted_quantity == on_hand (line_dims h l) t) ≡ false
    → HoldsAsIn s t
    → verdict (movement h l (on_hand (line_dims h l) t) cost) t ≡ ok tt
unfolding verdict movement line_dims
to_target h l cost s t covers unmet g = ground (arith, g.1 (stock_of h l))

post_line-Returned :
    (clock : Clock) (h : AdjustmentRow) (l : AdjustmentLineRow) (s t : Db)
    → CoversHeld s h l
    → HoldsAsIn s t
    → Returned (HoldsAsIn s) (post_line clock h l t)
unfolding post_line
post_line-Returned clock h l s t covers g =
    elim (Bool-cases
      (l.adjusted_quantity == quantity_of (live_balance_at (line_dims h l) t.stock_balances))) [
        | inl met ↦ rw met (refl, g)
        | inr unmet ↦ rw unmet (
            rw (quantity_of-eq (line_dims h l) t.stock_balances) (
              post_stock_movement-HoldsAsIn clock
                (movement h l (on_hand (line_dims h l) t)
                  (cost_of (live_balance_at (line_dims h l) t.stock_balances)))
                s t
                (to_target h l (cost_of (live_balance_at (line_dims h l) t.stock_balances)) s t
                  covers
                  (ap (λ n. l.adjusted_quantity == n)
                      (sym (quantity_of-eq (line_dims h l) t.stock_balances))
                    ∙ unmet)
                  g)
                g))
      ]

-- Where the stock tables are consistent, approving a stock adjustment that is a draft succeeds, if the target of
-- each line covers what is reserved and blocked of its stock.
pub approve_adjustment-returns :
    (clock : Clock) (by : Option ℕ) (id : ℕ) (s : Db) (h : AdjustmentRow)
    → IsConsistent s
    → find_where (has_id stock_adjustments id) s.stock_adjustments ≡ some h
    → document.is_draft h ≡ true
    → All (CoversHeld s h) (lines_for document id s)
    → is_ok (approve_adjustment clock by id s).0 ≡ true
unfolding approve_adjustment stamp_approved
approve_adjustment-returns clock by id s h c found draft covers =
    approve_document-Returned document document-IsDocument (post_line clock)
      (stamp_approved clock by) (λ h. refl) (post_line-OnlyStock clock) (HoldsAsIn s) (CoversHeld s)
      (λ h l t. post_line-Returned clock h l s t) id s (c, λ d. refl) found draft covers
