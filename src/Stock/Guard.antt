-- ===== src/Stock/Guard.antt =====
-- What `postStockMovement` does on each of its branches
-- (backend/src/modules/inventory/infrastructure/stock-posting.helper.ts).
use vrindavan.Base.{
  ℕ, ◌*◌, ◌≤◌, ◌≡◌, inl, inr, List, arith, get_or, ltb, ltb→lt, ltb→le, suc, ◌<◌, Bool-cases,
}
use vrindavan.Exec.{ok, err}
use vrindavan.Exec.Within.{Post, Within, Post-map}
use vrindavan.Db.{Db, Clock, Dims, BalanceRow, insufficient_stock}
use vrindavan.Stock.Balances.{quantity_at}
use vrindavan.Stock.Movement.{Posts, insert_ledger-Posts}
use vrindavan.Stock.Posting.{
  quantity_of, live_balance_at, PostMovementInput, ledger_row, insert_ledger, require_available,
  post_stock_movement, product_name,
}

pub quantity_of-eq :
    (d : Dims) (rows : List BalanceRow) → quantity_of (live_balance_at d rows) ≡ quantity_at d rows
quantity_of-eq d rows = ground arith

-- The guard lets a movement pass exactly when the stock on hand suffices, and writes nothing.
pub require_available-short :
    (input : PostMovementInput) (q : ℕ) (s : Db)
    → quantity_at input.dims s.stock_balances < q
    → require_available input q s ≡ (
      err (
          insufficient_stock
            (product_name input.product_id s)
            (quantity_at input.dims s.stock_balances)
            (q * 1000000)),
      s,
    )
unfolding require_available
require_available-short input q s h = ground (arith, quantity_of-eq input.dims s.stock_balances)

pub require_available-enough :
    (input : PostMovementInput) (q : ℕ) (s : Db)
    → q ≤ quantity_at input.dims s.stock_balances
    → require_available input q s ≡ (ok tt, s)
unfolding require_available
require_available-enough input q s h = ground (arith, quantity_of-eq input.dims s.stock_balances)

pub post_stock_movement-short :
    (clock : Clock) (input : PostMovementInput) (s : Db)
    → quantity_at input.dims s.stock_balances < get_or input.qty_out 0
    → post_stock_movement clock input s ≡ (
      err (
          insufficient_stock
            (product_name input.product_id s)
            (quantity_at input.dims s.stock_balances)
            (get_or input.qty_out 0 * 1000000)),
      s,
    )
unfolding post_stock_movement
post_stock_movement-short clock input s h =
    rw (require_available-short input (get_or input.qty_out 0) s h)

pub post_stock_movement-enough :
    (clock : Clock) (input : PostMovementInput) (s : Db)
    → get_or input.qty_out 0 ≤ quantity_at input.dims s.stock_balances
    → post_stock_movement clock input s
      ≡ insert_ledger (ledger_row clock input s.next_id) (record s { next_id = suc s.next_id })
unfolding post_stock_movement
post_stock_movement-enough clock input s h =
    rw (require_available-enough input (get_or input.qty_out 0) s h)

-- A movement that was posted: enough was on hand, and its row is on the ledger.
abbrev pub Posted : Clock → PostMovementInput → Db → Db → Type 0
Posted clock input s t =
    (get_or input.qty_out 0 ≤ quantity_at input.dims s.stock_balances)
    × Posts (ledger_row clock input s.next_id) s t

pub post_stock_movement-Posted :
    (clock : Clock) (input : PostMovementInput)
    → Within (Posted clock input) (post_stock_movement clock input)
post_stock_movement-Posted clock input = record { at = run }
  where
    run : (s : Db) → Post (Posted clock input) s (post_stock_movement clock input s)
    run s =
        let row = ledger_row clock input s.next_id in
        let drawn = record s { next_id = suc s.next_id } in
        elim (Bool-cases (ltb (quantity_at input.dims s.stock_balances) (get_or input.qty_out 0))) [
          | inl short ↦ rw (post_stock_movement-short clock input s (ltb→lt _ _ short)) tt
          | inr enough ↦ rw (post_stock_movement-enough clock input s (ltb→le _ _ enough)) (
              Post-map (Posts row) (Posted clock input) drawn s (insert_ledger row drawn)
                (λ t posts. (ltb→le _ _ enough, posts)) ((insert_ledger-Posts row).at drawn))
        ]
