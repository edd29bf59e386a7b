-- ===== src/Stock/Cost.antt =====
-- The moving average cost that the trigger keeps.
use Prim.Native.Nat.{min, max}
use native.Mathlib.Nat.{le-div_iff_mul-le, div-lt_iff_lt-mul, le_refl}
use vrindavan.Base.{ℕ, ◌+◌, ◌*◌, ◌/◌, ◌≤◌, ◌<◌, ◌≡◌, arith}
use vrindavan.Db.{LedgerRow}
use vrindavan.Stock.Trigger.{round_div, new_average_cost}

round_div-lower : (n d c : ℕ) → 0 < d → d * c ≤ n → c ≤ round_div n d
unfolding round_div
round_div-lower n d c p h = (le-div_iff_mul-le {k = 2 * d} (omega arith)).1 (omega arith)

round_div-upper : (n d c : ℕ) → 0 < d → n ≤ d * c → round_div n d ≤ c
unfolding round_div
round_div-upper n d c p h =
    let below : (2 * n + d) / (2 * d) < c + 1 =
      (div-lt_iff_lt-mul {k = 2 * d} (omega arith)).1 (omega arith) in
    omega arith

pub round_div_nearest :
    (n d : ℕ)
    → 0 < d
    → (2 * (round_div n d * d) ≤ 2 * n + d) × (2 * n ≤ 2 * (round_div n d * d) + d)
unfolding round_div
round_div_nearest n d p =
    let x = (2 * n + d) / (2 * d) in
    let low : x * (2 * d) ≤ 2 * n + d =
      (le-div_iff_mul-le {k = 2 * d} (omega arith)).0 (le_refl x) in
    let up : 2 * n + d < (x + 1) * (2 * d) =
      (div-lt_iff_lt-mul {k = 2 * d} (omega arith)).0 (omega arith) in
    (omega arith, omega arith)

-- The average is recomputed where stock comes in at a cost.
recomputed :
    (e : LedgerRow) (qty cost : ℕ)
    → 0 < e.qty_in
    → 0 < e.unit_cost
    → new_average_cost e qty cost ≡ round_div (qty * cost + e.qty_in * e.unit_cost) (qty + e.qty_in)
unfolding new_average_cost
recomputed e qty cost some_in costs = ground arith

scaled : (k a b : ℕ) → a ≤ b → k * a ≤ k * b
scaled k a b h = grind arith

-- Stock that comes in at a cost moves the average towards that cost and never past it: the new
-- average lies between the lower and the higher of the old one and the cost of what came in.
pub new_average_cost_between :
    (e : LedgerRow) (qty cost : ℕ)
    → 0 < e.qty_in
    → 0 < e.unit_cost
    → (min cost e.unit_cost ≤ new_average_cost e qty cost)
      × (new_average_cost e qty cost ≤ max cost e.unit_cost)
new_average_cost_between e qty cost some_in costs =
    let n = qty * cost + e.qty_in * e.unit_cost in
    let d = qty + e.qty_in in
    let low = min cost e.unit_cost in
    let high = max cost e.unit_cost in
    let a = scaled qty low cost (omega arith) in
    let b = scaled e.qty_in low e.unit_cost (omega arith) in
    let x = scaled qty cost high (omega arith) in
    let y = scaled e.qty_in e.unit_cost high (omega arith) in
    rw (recomputed e qty cost some_in costs) (
      round_div-lower n d low (omega arith) (omega arith),
      round_div-upper n d high (omega arith) (omega arith),
    )

-- An average that was recomputed is the nearest one: times the new quantity it is off from the exact
-- value of the stock by at most half of that quantity.
pub new_average_cost_nearest :
    (e : LedgerRow) (qty cost : ℕ)
    → 0 < e.qty_in
    → 0 < e.unit_cost
    → let value = qty * cost + e.qty_in * e.unit_cost in
      let total = qty + e.qty_in in
      (2 * (new_average_cost e qty cost * total) ≤ 2 * value + total)
      × (2 * value ≤ 2 * (new_average_cost e qty cost * total) + total)
new_average_cost_nearest e qty cost some_in costs =
    rw (recomputed e qty cost some_in costs)
      (round_div_nearest (qty * cost + e.qty_in * e.unit_cost) (qty + e.qty_in) (omega arith))
