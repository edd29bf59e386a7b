-- ===== src/Stock/Flow.antt =====
-- Quantities that a posted movement moves: at one dimension, and in all of a product's stock.
use vrindavan.Base.{true, arith, ℕ, ◌+◌, ◌≡◌, Bool, get_or, ◌==◌, if◌then◌else◌}
use vrindavan.Exec.Within.{Within, Within-weaken}
use vrindavan.Db.{Db, Clock, Dims}
use vrindavan.Stock.Dims.{same_dims}
use vrindavan.Stock.Balances.{find_balance-same, quantity_at, IsUnique, total_quantity}
use vrindavan.Stock.Guard.{Posted, post_stock_movement-Posted}
use vrindavan.Stock.Posting.{PostMovementInput, ledger_row, post_stock_movement}

abbrev pub when : Bool → ℕ → ℕ
when b x = if b then x else 0

abbrev pub on_hand : Dims → Db → ℕ
on_hand d db = quantity_at d db.stock_balances

-- `x` comes to the stock at `d`, and `y` goes.
abbrev pub Shifts : Dims → ℕ → ℕ → Db → Db → Type 0
Shifts d x y s t = on_hand d t + y ≡ on_hand d s + x

-- The same for all of a product's stock, where balances are keyed uniquely.
abbrev pub ShiftsTotal : ℕ → ℕ → ℕ → Db → Db → Type 0
ShiftsTotal p x y s t =
    IsUnique s.stock_balances
    → IsUnique t.stock_balances
      × (total_quantity p t.stock_balances + y ≡ total_quantity p s.stock_balances + x)

pub on_hand-same : (a b : Dims) (s : Db) → same_dims a b ≡ true → on_hand a s ≡ on_hand b s
on_hand-same a b s h = ground (arith, find_balance-same a b s.stock_balances h)

-- What a movement shifts at `d`.
abbrev pub InputShifts : PostMovementInput → Dims → Db → Db → Type 0
InputShifts input d =
    Shifts d (when (same_dims input.dims d) (get_or input.qty_in 0))
      (when (same_dims input.dims d) (get_or input.qty_out 0))

module _ (clock : Clock) (input : PostMovementInput) where
  pub post_stock_movement-Shifts :
      (d : Dims)
      → Within
          (Shifts d
            (when (same_dims input.dims d) (get_or input.qty_in 0))
            (when (same_dims input.dims d) (get_or input.qty_out 0)))
          (post_stock_movement clock input)
  unfolding ledger_row
  post_stock_movement-Shifts d =
      Within-weaken (Posted clock input) _ _ (λ s t p. p.1.1.on_hand d)
        (post_stock_movement-Posted clock input)

  pub post_stock_movement-ShiftsTotal :
      (p : ℕ)
      → Within
          (ShiftsTotal p
            (when (input.product_id == p) (get_or input.qty_in 0))
            (when (input.product_id == p) (get_or input.qty_out 0)))
          (post_stock_movement clock input)
  unfolding ledger_row
  post_stock_movement-ShiftsTotal p =
      Within-weaken (Posted clock input) _ _ (λ s t q u. (q.1.1.unique u, q.1.1.total p u))
        (post_stock_movement-Posted clock input)
