-- ===== src/Stock/Trigger.antt =====
-- The trigger by which the database keeps `stock_balances`
-- (trg_stock_ledger_to_balance in database/functions/002_stock_functions.sql), with the CHECK
-- constraints of that table (database/migrations/tenant_template/003_inventory.sql).
use vrindavan.Base.{
  ℕ, ◌+◌, ◌-◌, ◌*◌, ◌/◌, Bool, ◌&&◌, ◌||◌, Option, none, some, List, [], ◌∷◌, ◌++◌, ltb, any,
  find_where, update_where, if◌then◌else◌,
}
use vrindavan.Exec.{◌>>=◌, ◌>>◌, gets, modify, throw_if}
use vrindavan.Db.{Dims, LedgerRow, BalanceRow, Trx, check_violation, gen_random_uuid}
use vrindavan.Stock.Dims.{same_dims}

abbrev pub find_balance : Dims → List BalanceRow → Option BalanceRow
find_balance d = find_where (λ r. same_dims r.dims d)

-- A quotient assigned to a `numeric` column is rounded to the nearest unit, halves upwards.
unfoldable pub round_div : ℕ → ℕ → ℕ
round_div n d = (2 * n + d) / (2 * d)

-- The moving average, recomputed only for stock that comes in at a positive cost.
unfoldable pub new_average_cost : LedgerRow → ℕ → ℕ → ℕ
new_average_cost e existing_qty existing_cost =
    if ltb 0 e.qty_in && ltb 0 e.unit_cost
    then round_div (existing_qty * existing_cost + e.qty_in * e.unit_cost) (existing_qty + e.qty_in)
    else existing_cost

-- `CHECK (quantity >= 0)` and `CHECK (reserved_quantity + blocked_quantity <= quantity)`, for the
-- row that the update would leave.
unfoldable pub violates_check : LedgerRow → BalanceRow → Bool
violates_check e r =
    ltb (r.quantity + e.qty_in) e.qty_out
    || ltb (r.quantity + e.qty_in - e.qty_out) (r.reserved_quantity + r.blocked_quantity)

unfoldable pub moved : LedgerRow → ℕ → BalanceRow → BalanceRow
moved e cost r = record r { quantity = r.quantity + e.qty_in - e.qty_out; average_cost = cost }

unfoldable pub update_balances : LedgerRow → ℕ → Trx (Unit {0})
unfolding violates_check moved
update_balances e cost = do
  rows ← gets (λ db. db.stock_balances)
  throw_if (any (λ r. same_dims r.dims e.dims && violates_check e r) rows) check_violation
  modify (λ db. record db {
    stock_balances = update_where (λ r. same_dims r.dims e.dims) (moved e cost) db.stock_balances;
  })

unfoldable pub insert_balance : LedgerRow → ℕ → Trx (Unit {0})
insert_balance e cost = do
  throw_if (ltb e.qty_in e.qty_out) check_violation
  id ← gen_random_uuid
  modify (λ db. record db {
    stock_balances =
        db.stock_balances
        ++ record {
          id = id;
          dims = e.dims;
          quantity = e.qty_in - e.qty_out;
          reserved_quantity = 0;
          blocked_quantity = 0;
          average_cost = cost;
        }
          ∷ [];
  })

-- `IF FOUND THEN UPDATE … ELSE INSERT …`
unfoldable pub update_or_insert : LedgerRow → Option BalanceRow → Trx (Unit {0})
unfolding update_balances insert_balance new_average_cost
update_or_insert e none = insert_balance e (new_average_cost e 0 0)
update_or_insert e (some r) = update_balances e (new_average_cost e r.quantity r.average_cost)

unfoldable pub trg_stock_ledger_to_balance : LedgerRow → Trx (Unit {0})
unfolding update_or_insert
trg_stock_ledger_to_balance e = do
  existing ← gets (λ db. find_balance e.dims db.stock_balances)
  update_or_insert e existing
