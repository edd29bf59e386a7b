-- ===== src/Inventory/Return/Returns.antt =====
-- Approving a stock return succeeds on a draft of positive lines (`approve` of stock-return.kysely-repository.ts).
use vrindavan.Base.{All, ◌<◌, ℕ, ◌≡◌, refl, true, Option, some, arith, find_where, ◌∙◌}
use vrindavan.Db.{Db, Clock, ReturnRow, ReturnLineRow}
use vrindavan.Exec.{ok}
use vrindavan.Tables.{has_id, stock_returns}
use vrindavan.Stock.Consistent.{IsConsistent, post_stock_movement-IsConsistent}
use vrindavan.Stock.Posting.{post_stock_movement, get_live_balance, live_balance_at}
use vrindavan.Stock.Verdict.{verdict, goes_one_way-in, post_stock_movement-verdict}
use vrindavan.Inventory.Document.Posted.{held_at-covered, settled}
use vrindavan.Inventory.Document.Returns.{Returned, is_ok, approve_document-Returned}
use vrindavan.Inventory.Document.{lines_for}
use vrindavan.Inventory.Return.{
  document, line_dims, movement, return_cost, post_line, stamp_approved, approve_return,
}
use vrindavan.Inventory.Return.Approval.{document-IsDocument, post_line-OnlyStock}

arrival :
    (h : ReturnRow) (l : ReturnLineRow) (cost : ℕ) (s : Db)
    → 0 < l.quantity
    → IsConsistent s
    → verdict (movement h l cost) s ≡ ok tt
unfolding verdict movement
arrival h l cost s some_ c = ground (
  arith,
  goes_one_way-in l.quantity some_,
  held_at-covered (line_dims h l) s.stock_balances c.covered,
)

post_line-Returned :
    (clock : Clock) (h : ReturnRow) (l : ReturnLineRow) (s : Db)
    → 0 < l.quantity
    → IsConsistent s
    → Returned IsConsistent (post_line clock h l s)
unfolding post_line get_live_balance
post_line-Returned clock h l s some_ c =
    let cost = return_cost (live_balance_at (line_dims h l) s.stock_balances) l.product_id s in
    let input = movement h l cost in
    settled s (post_stock_movement clock input s)
      (post_stock_movement-verdict clock input s c.unique ∙ arrival h l cost s some_ c)
      ((post_stock_movement-IsConsistent clock input).at s) c

-- Where the stock tables are consistent, approving a stock return that is a draft succeeds, if
-- the quantity of each of its lines is positive.
pub approve_return-returns :
    (clock : Clock) (by : Option ℕ) (id : ℕ) (s : Db) (h : ReturnRow)
    → IsConsistent s
    → find_where (has_id stock_returns id) s.stock_returns ≡ some h
    → document.is_draft h ≡ true
    → All (λ l. 0 < l.quantity) (lines_for document id s)
    → is_ok (approve_return clock by id s).0 ≡ true
unfolding approve_return stamp_approved
approve_return-returns clock by id s h c found draft positive =
    approve_document-Returned document document-IsDocument (post_line clock)
      (stamp_approved clock by) (λ h. refl) (post_line-OnlyStock clock) IsConsistent
      (λ h l. 0 < l.quantity) (λ h l s. post_line-Returned clock h l s) id s c found draft positive
