-- ===== src/Inventory/Blocked.antt =====
-- Blocked stock (backend/src/modules/inventory: domain/blocked-stock.entity.ts,
-- infrastructure/blocked-stock.kysely-repository.ts), with the trigger that counts blocked
-- quantities (database/functions/002_stock_functions.sql).
pub mod Holds
pub mod Once
use vrindavan.Base.{
  ℕ, ◌+◌, ◌-◌, String, Bool, true, false, Option, none, some, List, ◌==◌, ◌&&◌, ltb, any,
  select_where, find_where, order_by_desc, update_where,
}
use vrindavan.Exec.{◌>>=◌, ◌>>◌, gets, pure, modify, throw_if, transaction}
use vrindavan.Db.{
  Trx, Clock, BalanceRow, BlockedRow, BlockedStatus, check_violation, gen_random_uuid,
}
use vrindavan.Tables.{insert, find_by_id, update_all, blocked_stock_entries}
use vrindavan.Stock.Dims.{coalesce}

pub record CreateBlockedStockProps : Type 0 where
  pub product_id : ℕ
  pub warehouse_id : ℕ
  pub rack_id : Option ℕ
  pub location_id : Option ℕ
  pub batch_id : Option ℕ
  pub quantity : ℕ
  pub reason : String

pub record BlockedStockFilters : Type 0 where
  pub product_id : Option ℕ
  pub warehouse_id : Option ℕ
  pub status : Option BlockedStatus

abbrev pub is_blocked : BlockedStatus → Bool
is_blocked BlockedStatus.blocked = true
is_blocked BlockedStatus.released = false

abbrev pub same_status : BlockedStatus → BlockedStatus → Bool
same_status BlockedStatus.blocked BlockedStatus.blocked = true
same_status BlockedStatus.released BlockedStatus.released = true
same_status _ _ = false

-- The balances that the trigger updates: every rack and location of the product, warehouse and batch.
unfoldable pub blocked_at : BlockedRow → BalanceRow → Bool
unfolding coalesce
blocked_at r b =
    b.product_id == r.product_id
    && (b.warehouse_id == r.warehouse_id && coalesce b.batch_id == coalesce r.batch_id)

unfoldable pub hold : ℕ → BalanceRow → BalanceRow
hold q b = record b { blocked_quantity = b.blocked_quantity + q }

-- `GREATEST(blocked_quantity - quantity, 0)`; subtraction on the naturals stops at 0.
unfoldable pub unhold : ℕ → BalanceRow → BalanceRow
unhold q b = record b { blocked_quantity = b.blocked_quantity - q }

-- `CHECK (reserved_quantity + blocked_quantity <= quantity)` fails for a row.
abbrev pub overheld : BalanceRow → Bool
overheld b = ltb b.quantity (b.reserved_quantity + b.blocked_quantity)

-- The trigger on `INSERT`.
unfoldable pub trg_blocked_inserted : BlockedRow → Trx (Unit {0})
unfolding blocked_at hold
trg_blocked_inserted r = do
  rows ← gets (λ db. db.stock_balances)
  throw_if (any (λ b. blocked_at r b && overheld (hold r.quantity b)) rows) check_violation
  modify (λ db. record db {
    stock_balances = update_where (blocked_at r) (hold r.quantity) db.stock_balances;
  })

-- The trigger on an `UPDATE` from `blocked` to `released`.
unfoldable pub trg_blocked_ended : BlockedRow → Trx (Unit {0})
unfolding blocked_at unhold
trg_blocked_ended r = modify (λ db. record db {
  stock_balances = update_where (blocked_at r) (unhold r.quantity) db.stock_balances;
})

unfoldable pub find_blocked : ℕ → Trx (Option BlockedRow)
find_blocked = find_by_id blocked_stock_entries

abbrev pub fits : Option ℕ → ℕ → Bool
fits none x = true
fits (some y) x = x == y

abbrev pub fits_status : Option BlockedStatus → BlockedStatus → Bool
fits_status none s = true
fits_status (some t) s = same_status s t

unfoldable pub find_all_blocked : BlockedStockFilters → Trx (List BlockedRow)
find_all_blocked filters = gets λ db.
    order_by_desc (λ r. r.blocked_at)
      (select_where
        (λ r.
          fits filters.product_id r.product_id
          && (fits filters.warehouse_id r.warehouse_id && fits_status filters.status r.status))
        db.blocked_stock_entries)

unfoldable pub blocked_values : Clock → CreateBlockedStockProps → Option ℕ → ℕ → BlockedRow
blocked_values clock props blocked_by id = record {
  id = id;
  product_id = props.product_id;
  warehouse_id = props.warehouse_id;
  rack_id = props.rack_id;
  location_id = props.location_id;
  batch_id = props.batch_id;
  quantity = props.quantity;
  reason = props.reason;
  status = BlockedStatus.blocked;
  blocked_by = blocked_by;
  blocked_at = clock.now;
  released_by = none;
  released_at = none;
}

unfoldable pub insert_blocked : Clock → CreateBlockedStockProps → Option ℕ → Trx BlockedRow
unfolding blocked_values trg_blocked_inserted
insert_blocked clock props blocked_by = do
  id ← gen_random_uuid
  let row = blocked_values clock props blocked_by id
  insert blocked_stock_entries row
  trg_blocked_inserted row
  pure row

-- One statement: the row and its trigger stand or fall together.
unfoldable pub create_blocked : Clock → CreateBlockedStockProps → Option ℕ → Trx BlockedRow
unfolding insert_blocked
create_blocked clock props blocked_by = transaction (insert_blocked clock props blocked_by)

abbrev pub is_blocked_row : ℕ → BlockedRow → Bool
is_blocked_row id r = r.id == id && is_blocked r.status

unfoldable pub lift : Clock → Option ℕ → BlockedRow → BlockedRow
lift clock released_by r = record r {
  status = BlockedStatus.released;
  released_by = released_by;
  released_at = some clock.now;
}

unfoldable pub release_blocked : Clock → ℕ → Option ℕ → Trx (Option BlockedRow)
unfolding lift trg_blocked_ended
release_blocked clock id released_by db =
    elim (find_where (is_blocked_row id) db.blocked_stock_entries) [
      | none ↦ pure none db
      | some r ↦
          (do
            update_all blocked_stock_entries (is_blocked_row id) (lift clock released_by)
            trg_blocked_ended r
            pure (some (lift clock released_by r)))
            db
    ]
