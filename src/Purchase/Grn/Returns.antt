-- ===== src/Purchase/Grn/Returns.antt =====
-- Completing a goods received note succeeds on a draft whose units are known: `complete` of
-- goods-received-note.kysely-repository.ts.
use vrindavan.Base.{◌<◌, ℕ, ◌≡◌, refl, true, some, arith, find_where, ◌∙◌, All}
use vrindavan.Exec.{ok}
use vrindavan.Db.{Db, Clock, GoodsReceivedNoteRow, GrnLineRow}
use vrindavan.Tables.{has_id}
use vrindavan.Tables.Purchase.{goods_received_notes}
use vrindavan.Stock.Consistent.{IsConsistent, post_stock_movement-IsConsistent}
use vrindavan.Stock.Posting.{post_stock_movement}
use vrindavan.Stock.Verdict.{verdict, goes_one_way-in, post_stock_movement-verdict}
use vrindavan.Inventory.Document.{lines_for}
use vrindavan.Inventory.Document.Laws.{IsDocument, IsConsistent-SameStock}
use vrindavan.Inventory.Document.Posted.{held_at-covered, settled}
use vrindavan.Inventory.Document.Returns.{Returned, Returned-weaken, is_ok}
use vrindavan.Trade.Fulfilment.{base_quantity}
use vrindavan.Trade.Fulfilment.Returns.{Known, Moves, Moves-in, IsApart, fulfil-returns}
use vrindavan.Purchase.Grn.{
  document, fulfils, line_dims, movement, post_line, stamp_completed, complete_grn,
}
use vrindavan.Purchase.Grn.Received.{fulfils-IsFulfils}

abbrev document-IsDocument : IsDocument document
document-IsDocument = record {
  rows-put = λ xs db. refl;
  rows-with_stock = λ s t. refl;
  ledger-put = λ xs db. refl;
  balances-put = λ xs db. refl;
}

abbrev fulfils-IsApart : IsApart fulfils
fulfils-IsApart = record {
  headers-put = λ xs db. refl;
  units-put = λ xs db. refl;
  stock-put = λ xs db. (refl, refl);
}

arrival :
    (h : GoodsReceivedNoteRow) (l : GrnLineRow) (factor : ℕ) (s : Db)
    → 0 < base_quantity l.quantity factor
    → IsConsistent s
    → verdict (movement h l factor) s ≡ ok tt
unfolding verdict movement
arrival h l factor s some_ c = ground (
  arith,
  goes_one_way-in (base_quantity l.quantity factor) some_,
  held_at-covered (line_dims h l) s.stock_balances c.covered,
)

post_line-Returned :
    (clock : Clock) (h : GoodsReceivedNoteRow) (l : GrnLineRow) (factor : ℕ) (s : Db)
    → 0 < base_quantity l.quantity factor
    → IsConsistent s
    → Returned IsConsistent (post_line clock h l factor s)
unfolding post_line
post_line-Returned clock h l factor s some_ c =
    let input = movement h l factor in
    settled s (post_stock_movement clock input s)
      (post_stock_movement-verdict clock input s c.unique ∙ arrival h l factor s some_ c)
      ((post_stock_movement-IsConsistent clock input).at s) c

-- Where the stock tables are consistent, completing a goods received note that is a draft succeeds,
-- if the unit of each of its lines is in the table of units and the quantity of each in base units is
-- not rounded to nothing.
pub complete_grn-returns :
    (clock : Clock) (id : ℕ) (s : Db) (h : GoodsReceivedNoteRow)
    → IsConsistent s
    → find_where (has_id goods_received_notes id) s.purchase.goods_received_notes ≡ some h
    → document.is_draft h ≡ true
    → All (Known fulfils s) (lines_for document id s)
    → All (Moves fulfils s) (lines_for document id s)
    → is_ok (complete_grn clock id s).0 ≡ true
unfolding complete_grn stamp_completed
complete_grn-returns clock id s h c found draft known moves =
    fulfil-returns fulfils clock (λ ls t. IsConsistent t × All (Moves fulfils s) ls) s
      fulfils-IsFulfils document-IsDocument fulfils-IsApart
      (λ ls t u same g. (IsConsistent-SameStock t u same g.0, g.1)) h
      (λ l ls u t unit g.
        Returned-weaken IsConsistent (λ v. IsConsistent v × All (Moves fulfils s) ls)
          (post_line clock h l u.conversion_factor t) (λ v k. (k, g.1.1))
          (post_line-Returned clock h l u.conversion_factor t (Moves-in fulfils l u s unit g.1.0)
            g.0))
      id (λ h. refl) found draft known (c, moves)
