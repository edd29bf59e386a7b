-- ===== src/Inventory/Damage/Returns.antt =====
-- Approving damaged stock succeeds on a draft that no more than the free stock covers (`approve` of
-- damaged-stock.kysely-repository.ts).
use vrindavan.Base.{
  ℕ, ◌+◌, ◌≤◌, ◌<◌, All, ◌≡◌, refl, true, Option, some, List, ◌∷◌, arith, find_where,
}
use vrindavan.Exec.{Result, ok, err}
use vrindavan.Exec.Within.{Post}
use vrindavan.Db.{Db, Error, Clock, Dims, DamageRow, DamageLineRow}
use vrindavan.Tables.{has_id, damaged_stock}
use vrindavan.Stock.Dims.{same_dims, same_dims_refl}
use vrindavan.Stock.Balances.{held_at}
use vrindavan.Stock.Consistent.{IsConsistent}
use vrindavan.Stock.Flow.{when, on_hand, Shifts}
use vrindavan.Stock.Posting.{live_balance_at, cost_of, get_live_balance}
use vrindavan.Stock.Verdict.{verdict, goes_one_way-out}
use vrindavan.Inventory.Document.{lines_for}
use vrindavan.Inventory.Document.Returns.{
  Returned, Returned-weaken, is_ok, approve_document-in_turn,
}
use vrindavan.Inventory.Document.Posted.{HoldsAsIn, post_stock_movement-HoldsAsIn}
use vrindavan.Inventory.Damage.{
  document, line_dims, movement, post_line, stamp_approved, approve_damage,
}
use vrindavan.Inventory.Damage.Approval.{
  document-IsDocument, stock_of, lines_quantity, post_line-OnlyStock, post_line-Shifts,
}

-- At every dimension the stock covers what is held there and the lines for it.
abbrev pub CoversLines : DamageRow → List DamageLineRow → Db → Db → Type 0
CoversLines h ls s t = (d : Dims) → held_at d s.stock_balances + lines_quantity h d ls ≤ on_hand d t

leaves :
    (h : DamageRow) (l : DamageLineRow) (ls : List DamageLineRow) (cost : ℕ) (s t : Db)
    → 0 < l.quantity
    → HoldsAsIn s t
    → CoversLines h (l ∷ ls) s t
    → verdict (movement h l cost) t ≡ ok tt
unfolding verdict movement line_dims
leaves h l ls cost s t some_ g covers = ground (
  arith,
  goes_one_way-out l.quantity some_,
  g.1 (stock_of h l),
  covers (stock_of h l),
  same_dims_refl (stock_of h l),
)

still_covered :
    (h : DamageRow) (l : DamageLineRow) (ls : List DamageLineRow) (s t : Db)
    (r : Result Error (Unit {0}) × Db)
    → CoversLines h (l ∷ ls) s t
    → ((d : Dims) → Post (Shifts d 0 (when (same_dims (stock_of h l) d) l.quantity)) t r)
    → Returned (HoldsAsIn s) r
    → Returned (λ u. HoldsAsIn s u × CoversLines h ls s u) r
still_covered h l ls s t (ok a, u) covers shifts g =
    (refl, (g.1, λ d. omega (arith, covers d, shifts d)))
still_covered h l ls s t (err e, u) covers shifts g = absurd (cc g.0)

post_line-in_turn :
    (clock : Clock) (h : DamageRow) (l : DamageLineRow) (ls : List DamageLineRow) (s t : Db)
    → 0 < l.quantity
    → HoldsAsIn s t
    → CoversLines h (l ∷ ls) s t
    → Returned (λ u. HoldsAsIn s u × CoversLines h ls s u) (post_line clock h l t)
unfolding post_line get_live_balance line_dims
post_line-in_turn clock h l ls s t some_ g covers =
    let cost = cost_of (live_balance_at (line_dims h l) t.stock_balances) in
    still_covered h l ls s t (post_line clock h l t) covers
      (λ d. (post_line-Shifts clock d h l).at t)
      (post_stock_movement-HoldsAsIn clock (movement h l cost) s t
        (leaves h l ls cost s t some_ g covers) g)

-- Where the stock tables are consistent, approving damaged stock that is a draft succeeds, if the
-- quantity of each of its lines is positive and the stock at every dimension covers what is reserved and blocked there and the document's lines for it.
pub approve_damage-returns :
    (clock : Clock) (by : Option ℕ) (id : ℕ) (s : Db) (h : DamageRow)
    → IsConsistent s
    → find_where (has_id damaged_stock id) s.damaged_stock ≡ some h
    → document.is_draft h ≡ true
    → All (λ l. 0 < l.quantity) (lines_for document id s)
    → CoversLines h (lines_for document id s) s s
    → is_ok (approve_damage clock by id s).0 ≡ true
unfolding approve_damage stamp_approved
approve_damage-returns clock by id s h c found draft positive covers =
    approve_document-in_turn document document-IsDocument (post_line clock)
      (stamp_approved clock by) (λ h. refl) (post_line-OnlyStock clock)
      (λ ls t. (HoldsAsIn s t × CoversLines h ls s t) × All (λ l. 0 < l.quantity) ls) id s h
      (λ l ls t g.
        Returned-weaken (λ u. HoldsAsIn s u × CoversLines h ls s u)
          (λ u. (HoldsAsIn s u × CoversLines h ls s u) × All (λ l. 0 < l.quantity) ls)
          (post_line clock h l t) (λ u k. (k, g.1.1))
          (post_line-in_turn clock h l ls s t g.1.0 g.0.0 g.0.1))
      (((c, λ d. refl), covers), positive) found draft
