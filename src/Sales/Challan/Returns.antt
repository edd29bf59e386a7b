-- ===== src/Sales/Challan/Returns.antt =====
-- Delivering a challan succeeds on a draft that no more than the free stock covers: `deliver` of
-- delivery-challan.kysely-repository.ts.
use vrindavan.Base.{
  ℕ, ◌+◌, ◌*◌, ◌/◌, ◌≤◌, ◌<◌, ◌≡◌, refl, true, false, Option, none, some, List, ◌∷◌, arith,
  find_where, All, sum_by, ◌==◌, ltb, ap, ◌∙◌,
}
use vrindavan.Exec.{Result, ok, err}
use vrindavan.Exec.Within.{Post}
use vrindavan.Db.{
  Db, Error, Clock, Dims, DeliveryChallanRow, DeliveryChallanLineRow, ProductUnitRow,
}
use vrindavan.Tables.{has_id}
use vrindavan.Tables.Sales.{delivery_challans}
use vrindavan.Stock.Dims.{same_dims, same_dims_refl}
use vrindavan.Stock.Balances.{held_at}
use vrindavan.Stock.Consistent.{IsConsistent}
use vrindavan.Stock.Flow.{when, on_hand, Shifts, post_stock_movement-Shifts}
use vrindavan.Stock.Guard.{quantity_of-eq}
use vrindavan.Stock.Trigger.{round_div}
use vrindavan.Stock.Posting.{live_balance_at, cost_of, get_live_balance, post_stock_movement}
use vrindavan.Stock.Verdict.{verdict, goes_one_way-out}
use vrindavan.Inventory.Document.{lines_for}
use vrindavan.Inventory.Document.Laws.{IsDocument, IsConsistent-SameStock}
use vrindavan.Inventory.Document.Returns.{Returned, Returned-weaken, is_ok}
use vrindavan.Inventory.Document.Posted.{HoldsAsIn, post_stock_movement-HoldsAsIn}
use vrindavan.Trade.Fulfilment.{base_quantity, millionths, post_unrounded}
use vrindavan.Trade.Fulfilment.Returns.{Known, Moves, Moves-in, IsApart, fulfil-returns}
use vrindavan.Sales.Challan.{
  document, fulfils, line_dims, movement, post_line, stamp_delivered, deliver,
}
use vrindavan.Sales.Challan.Delivered.{fulfils-IsFulfils}

abbrev document-IsDocument : IsDocument document
document-IsDocument = record {
  rows-put = λ xs db. refl;
  rows-with_stock = λ s t. refl;
  ledger-put = λ xs db. refl;
  balances-put = λ xs db. refl;
}

abbrev fulfils-IsApart : IsApart fulfils
fulfils-IsApart = record {
  headers-put = λ xs db. refl;
  units-put = λ xs db. refl;
  stock-put = λ xs db. (refl, refl);
}

abbrev pub stock_of : DeliveryChallanRow → DeliveryChallanLineRow → Dims
stock_of h l = record {
  product_id = l.product_id;
  warehouse_id = h.warehouse_id;
  rack_id = none;
  location_id = none;
  batch_id = l.batch_id;
}

-- A quantity in base units, rounded up to the next thousandth above it.
abbrev pub rounded_up : ℕ → ℕ
rounded_up exact = exact / 1000000 + 1

abbrev pub needed_in : ℕ → Option ProductUnitRow → ℕ
needed_in quantity none = 0
needed_in quantity (some u) = rounded_up (quantity * u.conversion_factor)

abbrev pub line_needs : Db → DeliveryChallanLineRow → ℕ
line_needs s l = needed_in l.quantity (find_where (λ u. u.id == l.product_unit_id) s.product_units)

-- At every dimension the stock covers what is held there and the lines for it.
abbrev pub CoversLines : DeliveryChallanRow → List DeliveryChallanLineRow → Db → Db → Type 0
CoversLines h ls s t =
    (d : Dims)
    → held_at d s.stock_balances
        + sum_by (λ l. when (same_dims (stock_of h l) d) (line_needs s l)) ls
      ≤ on_hand d t

enough_rounded : (exact : ℕ) → round_div exact millionths ≤ rounded_up exact
unfolding round_div
enough_rounded exact = omega arith

enough_exact : (exact : ℕ) → exact ≤ rounded_up exact * millionths
enough_exact exact = omega arith

leaves :
    (h : DeliveryChallanRow) (l : DeliveryChallanLineRow) (ls : List DeliveryChallanLineRow)
    (u : ProductUnitRow) (cost : ℕ) (s t : Db)
    → find_where (λ u. u.id == l.product_unit_id) s.product_units ≡ some u
    → 0 < base_quantity l.quantity u.conversion_factor
    → HoldsAsIn s t
    → CoversLines h (l ∷ ls) s t
    → (ltb (on_hand (stock_of h l) t * millionths) (l.quantity * u.conversion_factor) ≡ false)
      × (verdict (movement h l u.conversion_factor cost) t ≡ ok tt)
unfolding verdict movement line_dims base_quantity round_div
leaves h l ls u cost s t unit some_ g covers =
    let exact = l.quantity * u.conversion_factor in
    let needs = ap (needed_in l.quantity) unit in
    let same = same_dims_refl (stock_of h l) in
    let here = covers (stock_of h l) in
    (
      ground (arith, here, needs, same, enough_exact exact),
      ground (
        arith,
        goes_one_way-out (base_quantity l.quantity u.conversion_factor) some_,
        g.1 (stock_of h l),
        here,
        needs,
        same,
        enough_rounded exact,
      ),
    )

still_covered :
    (h : DeliveryChallanRow) (l : DeliveryChallanLineRow) (ls : List DeliveryChallanLineRow)
    (u : ProductUnitRow) (s t : Db) (r : Result Error (Unit {0}) × Db)
    → find_where (λ u. u.id == l.product_unit_id) s.product_units ≡ some u
    → CoversLines h (l ∷ ls) s t
    → ((d : Dims)
        → Post
            (Shifts d
              (when (same_dims (stock_of h l) d) 0)
              (when (same_dims (stock_of h l) d) (base_quantity l.quantity u.conversion_factor)))
            t
            r)
    → Returned (HoldsAsIn s) r
    → Returned (λ v. HoldsAsIn s v × CoversLines h ls s v) r
unfolding base_quantity
still_covered h l ls u s t (ok a, v) unit covers shifts g =
    let exact = l.quantity * u.conversion_factor in
    let needs = ap (needed_in l.quantity) unit in
    (refl, (g.1, λ d. ground (arith, covers d, shifts d, needs, enough_rounded exact)))
still_covered h l ls u s t (err e, v) unit covers shifts g = absurd (cc g.0)

post_line-in_turn :
    (clock : Clock) (h : DeliveryChallanRow) (l : DeliveryChallanLineRow)
    (ls : List DeliveryChallanLineRow) (u : ProductUnitRow) (s t : Db)
    → find_where (λ u. u.id == l.product_unit_id) s.product_units ≡ some u
    → 0 < base_quantity l.quantity u.conversion_factor
    → HoldsAsIn s t
    → CoversLines h (l ∷ ls) s t
    → Returned
        (λ v. HoldsAsIn s v × CoversLines h ls s v)
        (post_line clock h l u.conversion_factor t)
unfolding post_line get_live_balance post_unrounded line_dims movement
post_line-in_turn clock h l ls u s t unit some_ g covers =
    let cost = cost_of (live_balance_at (line_dims h l) t.stock_balances) in
    let input = movement h l u.conversion_factor cost in
    let (enough, passes) = leaves h l ls u cost s t unit some_ g covers in
    rw (quantity_of-eq (line_dims h l) t.stock_balances, enough)
      (still_covered h l ls u s t (post_stock_movement clock input t) unit covers
        (λ d. (post_stock_movement-Shifts clock input d).at t)
        (post_stock_movement-HoldsAsIn clock input s t passes g))

-- Where the stock tables are consistent, delivering a challan that is a draft succeeds, if the unit
-- of each of its lines is in the table of units, the quantity of each in base units is not rounded to
-- nothing, and the stock at every dimension covers what is reserved and blocked there and the
-- challan's lines for it, each rounded up to the next thousandth above it.
pub deliver-returns :
    (clock : Clock) (id : ℕ) (s : Db) (h : DeliveryChallanRow)
    → IsConsistent s
    → find_where (has_id delivery_challans id) s.sales.delivery_challans ≡ some h
    → document.is_draft h ≡ true
    → All (Known fulfils s) (lines_for document id s)
    → All (Moves fulfils s) (lines_for document id s)
    → CoversLines h (lines_for document id s) s s
    → is_ok (deliver clock id s).0 ≡ true
unfolding deliver stamp_delivered
deliver-returns clock id s h c found draft known moves covers =
    fulfil-returns fulfils clock
      (λ ls t. (HoldsAsIn s t × CoversLines h ls s t) × All (Moves fulfils s) ls) s
      fulfils-IsFulfils document-IsDocument fulfils-IsApart
      (λ ls t u (ledger, balances) ((g, k), m). (
        (
          (IsConsistent-SameStock t u (ledger, balances) g.0, λ d. ap (held_at d) balances ∙ g.1 d),
          λ d. rw balances (k d),
        ),
        m,
      ))
      h
      (λ l ls u t unit g.
        Returned-weaken (λ v. HoldsAsIn s v × CoversLines h ls s v)
          (λ v. (HoldsAsIn s v × CoversLines h ls s v) × All (Moves fulfils s) ls)
          (post_line clock h l u.conversion_factor t) (λ v k. (k, g.1.1))
          (post_line-in_turn clock h l ls u s t unit (Moves-in fulfils l u s unit g.1.0) g.0.0
            g.0.1))
      id (λ h. refl) found draft known (((c, λ d. refl), covers), moves)
