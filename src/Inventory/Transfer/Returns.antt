-- ===== src/Inventory/Transfer/Returns.antt =====
-- Approving a stock transfer succeeds on a draft that no more than the free stock covers (`approve`
-- of stock-transfer.kysely-repository.ts).
use vrindavan.Base.{
  ℕ, ◌+◌, ◌≤◌, ◌<◌, All, ◌≡◌, refl, true, Option, some, List, ◌∷◌, arith, find_where,
}
use vrindavan.Exec.{Result, ok, err}
use vrindavan.Exec.Within.{Post}
use vrindavan.Db.{Db, Error, Clock, Dims, TransferRow, TransferLineRow}
use vrindavan.Tables.{has_id, stock_transfers}
use vrindavan.Stock.Dims.{same_dims, same_dims_refl}
use vrindavan.Stock.Balances.{held_at}
use vrindavan.Stock.Consistent.{IsConsistent}
use vrindavan.Stock.Flow.{when, on_hand, Shifts}
use vrindavan.Stock.Posting.{live_balance_at, cost_of, get_live_balance, post_stock_movement}
use vrindavan.Stock.Verdict.{verdict, goes_one_way-in, goes_one_way-out}
use vrindavan.Inventory.Document.{lines_for}
use vrindavan.Inventory.Document.Returns.{
  Returned, Returned-continue, Returned-weaken, is_ok, approve_document-in_turn,
}
use vrindavan.Inventory.Document.Posted.{HoldsAsIn, post_stock_movement-HoldsAsIn, held_at-covered}
use vrindavan.Inventory.Transfer.{
  document, source_dims, target_dims, movement_out, movement_in, post_line, complete,
  approve_transfer,
}
use vrindavan.Inventory.Transfer.Approval.{
  document-IsDocument, leaves_from, arrives_at, lines_out, post_line-OnlyStock, post_line-Shifts,
}

-- At every dimension the stock covers what is held there and the lines that leave it.
abbrev pub CoversLines : TransferRow → List TransferLineRow → Db → Db → Type 0
CoversLines h ls s t = (d : Dims) → held_at d s.stock_balances + lines_out h d ls ≤ on_hand d t

leaves :
    (h : TransferRow) (l : TransferLineRow) (ls : List TransferLineRow) (cost : ℕ) (s t : Db)
    → 0 < l.quantity
    → HoldsAsIn s t
    → CoversLines h (l ∷ ls) s t
    → verdict (movement_out h l cost) t ≡ ok tt
unfolding verdict movement_out source_dims
leaves h l ls cost s t some_ g covers = ground (
  arith,
  goes_one_way-out l.quantity some_,
  g.1 (leaves_from h l),
  covers (leaves_from h l),
  same_dims_refl (leaves_from h l),
)

arrives :
    (h : TransferRow) (l : TransferLineRow) (cost : ℕ) (t : Db)
    → 0 < l.quantity
    → IsConsistent t
    → verdict (movement_in h l cost) t ≡ ok tt
unfolding verdict movement_in
arrives h l cost t some_ c = ground (
  arith,
  goes_one_way-in l.quantity some_,
  held_at-covered (target_dims h l) t.stock_balances c.covered,
)

still_covered :
    (h : TransferRow) (l : TransferLineRow) (ls : List TransferLineRow) (s t : Db)
    (r : Result Error (Unit {0}) × Db)
    → CoversLines h (l ∷ ls) s t
    → ((d : Dims)
        → Post
            (Shifts d
              (when (same_dims (arrives_at h l) d) l.quantity)
              (when (same_dims (leaves_from h l) d) l.quantity))
            t
            r)
    → Returned (HoldsAsIn s) r
    → Returned (λ u. HoldsAsIn s u × CoversLines h ls s u) r
still_covered h l ls s t (ok a, u) covers shifts g =
    (refl, (g.1, λ d. omega (arith, covers d, shifts d)))
still_covered h l ls s t (err e, u) covers shifts g = absurd (cc g.0)

post_line-in_turn :
    (clock : Clock) (h : TransferRow) (l : TransferLineRow) (ls : List TransferLineRow) (s t : Db)
    → 0 < l.quantity
    → HoldsAsIn s t
    → CoversLines h (l ∷ ls) s t
    → Returned (λ u. HoldsAsIn s u × CoversLines h ls s u) (post_line clock h l t)
unfolding post_line get_live_balance source_dims target_dims
post_line-in_turn clock h l ls s t some_ g covers =
    let cost = cost_of (live_balance_at (source_dims h l) t.stock_balances) in
    still_covered h l ls s t (post_line clock h l t) covers
      (λ d. (post_line-Shifts clock d h l).at t)
      (Returned-continue (HoldsAsIn s) (HoldsAsIn s)
        (post_stock_movement clock (movement_out h l cost) t)
        (λ _. post_stock_movement clock (movement_in h l cost))
        (post_stock_movement-HoldsAsIn clock (movement_out h l cost) s t
          (leaves h l ls cost s t some_ g covers) g)
        (λ a u k.
          post_stock_movement-HoldsAsIn clock (movement_in h l cost) s u
            (arrives h l cost u some_ k.0) k))

-- Where the stock tables are consistent, approving a stock transfer that is a draft succeeds, if the
-- quantity of each of its lines is positive and the stock at every dimension covers what is reserved
-- and blocked there and the lines that leave it.
pub approve_transfer-returns :
    (clock : Clock) (by : Option ℕ) (id : ℕ) (s : Db) (h : TransferRow)
    → IsConsistent s
    → find_where (has_id stock_transfers id) s.stock_transfers ≡ some h
    → document.is_draft h ≡ true
    → All (λ l. 0 < l.quantity) (lines_for document id s)
    → CoversLines h (lines_for document id s) s s
    → is_ok (approve_transfer clock by id s).0 ≡ true
unfolding approve_transfer complete
approve_transfer-returns clock by id s h c found draft positive covers =
    approve_document-in_turn document document-IsDocument (post_line clock) (complete clock by)
      (λ h. refl) (post_line-OnlyStock clock)
      (λ ls t. (HoldsAsIn s t × CoversLines h ls s t) × All (λ l. 0 < l.quantity) ls) id s h
      (λ l ls t g.
        Returned-weaken (λ u. HoldsAsIn s u × CoversLines h ls s u)
          (λ u. (HoldsAsIn s u × CoversLines h ls s u) × All (λ l. 0 < l.quantity) ls)
          (post_line clock h l t) (λ u k. (k, g.1.1))
          (post_line-in_turn clock h l ls s t g.1.0 g.0.0 g.0.1))
      (((c, λ d. refl), covers), positive) found draft
