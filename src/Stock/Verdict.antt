-- ===== src/Stock/Verdict.antt =====
-- The outcome of `postStockMovement`, decided in advance from the balance that it concerns.
use vrindavan.Base.{
  ◌<◌, ◌==◌, ◌||◌, ℕ, zero, Bool, true, not, ◌+◌, ◌*◌, ◌-◌, ◌≤◌, ◌≡◌, refl, inl, inr, false, ◌&&◌,
  some, none, List, [], ◌∷◌, arith, any, get_or, ltb, ltb→lt, ltb→le, if◌then◌else◌, Bool-cases,
  Option-cases, suc,
}
use vrindavan.Exec.{Result, ok, err}
use vrindavan.Db.{Db, Error, Clock, LedgerRow, BalanceRow, insufficient_stock, check_violation}
use vrindavan.Stock.Dims.{same_dims}
use vrindavan.Stock.Trigger.{find_balance, violates_check}
use vrindavan.Stock.Balances.{quantity_at, held_at, IsUnique, find_balance-same}
use vrindavan.Stock.Posting.{
  PostMovementInput, is_one_way, ledger_row, insert_ledger, product_name, post_stock_movement,
}
use vrindavan.Stock.Guard.{post_stock_movement-short, post_stock_movement-enough}

-- Something comes in or something goes out, and not both.
abbrev pub goes_one_way : ℕ → ℕ → Bool
goes_one_way zero zero = false
goes_one_way zero (suc q) = true
goes_one_way (suc q) zero = true
goes_one_way (suc q) (suc r) = false

pub goes_one_way-in : (q : ℕ) → 0 < q → goes_one_way q 0 ≡ true
goes_one_way-in zero h = absurd (omega (arith, h))
goes_one_way-in (suc q) h = refl

pub goes_one_way-out : (q : ℕ) → 0 < q → goes_one_way 0 q ≡ true
goes_one_way-out zero h = absurd (omega (arith, h))
goes_one_way-out (suc q) h = refl

one_way-goes : (q r : ℕ) → ((ltb 0 q && r == 0) || (ltb 0 r && q == 0)) ≡ goes_one_way q r
one_way-goes zero zero = ground arith
one_way-goes zero (suc r) = ground arith
one_way-goes (suc q) zero = ground arith
one_way-goes (suc q) (suc r) = ground arith

pub is_one_way-goes : (e : LedgerRow) → is_one_way e ≡ goes_one_way e.qty_in e.qty_out
unfolding is_one_way
is_one_way-goes e = one_way-goes e.qty_in e.qty_out

unfoldable pub verdict : PostMovementInput → Db → Result Error (Unit {0})
verdict input s =
    let on_hand = quantity_at input.dims s.stock_balances in
    let qty_in = get_or input.qty_in 0 in
    let qty_out = get_or input.qty_out 0 in
    if ltb on_hand qty_out
    then err (insufficient_stock (product_name input.product_id s) on_hand (qty_out * 1000000))
    else if not (goes_one_way qty_in qty_out)
    then err check_violation
    else if ltb (on_hand + qty_in - qty_out) (held_at input.dims s.stock_balances)
    then err check_violation
    else ok tt

no_match :
    (e : LedgerRow) (rows : List BalanceRow)
    → find_balance e.dims rows ≡ none
    → any (λ r. same_dims r.dims e.dims && violates_check e r) rows ≡ false
no_match e [] h = refl
no_match e (x ∷ rows) h = ground (arith, no_match e rows)

one_match :
    (e : LedgerRow) (rows : List BalanceRow) {r : BalanceRow}
    → IsUnique rows
    → find_balance e.dims rows ≡ some r
    → any (λ r. same_dims r.dims e.dims && violates_check e r) rows ≡ violates_check e r
one_match e [] u h = cc
one_match e (x ∷ rows) {r} u h =
    ground (arith, find_balance-same x.dims e.dims rows, no_match e rows, one_match e rows {r = r})

insert_ledger-verdict :
    (e : LedgerRow) (s : Db)
    → IsUnique s.stock_balances
    → e.qty_out ≤ quantity_at e.dims s.stock_balances
    → (insert_ledger e s).0 ≡ (
        if not (goes_one_way e.qty_in e.qty_out)
        then err check_violation
        else if ltb
            (quantity_at e.dims s.stock_balances + e.qty_in - e.qty_out)
            (held_at e.dims s.stock_balances)
        then err check_violation
        else ok tt)
unfolding insert_ledger violates_check
insert_ledger-verdict e s u h = elim (Bool-cases (goes_one_way e.qty_in e.qty_out)) [
  | inr both ↦ rw (is_one_way-goes e, both) refl
  | inl one ↦
      rw (is_one_way-goes e, one)
        (elim (Option-cases (find_balance e.dims s.stock_balances)) [
          | inl fresh ↦ ground (arith, fresh)
          | inr (r, old) ↦ ground (arith, old, one_match e s.stock_balances {r = r} u old)
        ])
]

-- Where balances are keyed uniquely: the movement is refused as short exactly when less is on hand
-- than goes out; it fails a check of the database exactly when enough is on hand, but nothing moves
-- or stock both comes in and goes out, or what would be left does not cover what is reserved and
-- blocked; and else it is posted.
pub post_stock_movement-verdict :
    (clock : Clock) (input : PostMovementInput) (s : Db)
    → IsUnique s.stock_balances
    → (post_stock_movement clock input s).0 ≡ verdict input s
unfolding verdict
post_stock_movement-verdict clock input s u =
    elim (Bool-cases (ltb (quantity_at input.dims s.stock_balances) (get_or input.qty_out 0))) [
      | inl short ↦ rw (short, post_stock_movement-short clock input s (ltb→lt _ _ short))
      | inr enough ↦
          rw (enough, post_stock_movement-enough clock input s (ltb→le _ _ enough))
            (unfold ledger_row in
              insert_ledger-verdict (ledger_row clock input s.next_id)
                (record s { next_id = suc s.next_id }) u (ltb→le _ _ enough))
    ]
