-- ===== src/Inventory/Reserved.antt =====
-- Reserved stock (backend/src/modules/inventory: domain/reserved-stock.entity.ts,
-- infrastructure/reserved-stock.kysely-repository.ts), with the trigger that counts reservations
-- and the function that expires them (database/functions/002_stock_functions.sql).
pub mod Holds
pub mod Once
use vrindavan.Base.{
  ℕ, ◌+◌, ◌-◌, String, Bool, true, false, Option, none, some, List, ◌==◌, ◌&&◌, ltb, leb, any,
  select_where, find_where, order_by_desc, length, update_where,
}
use vrindavan.Exec.{◌>>=◌, ◌>>◌, gets, pure, modify, throw_if, for_each, transaction}
use vrindavan.Db.{
  Trx, Clock, BalanceRow, ReservedRow, ReservedStatus, check_violation, gen_random_uuid,
}
use vrindavan.Tables.{insert, find_by_id, update_all, reserved_stock}
use vrindavan.Stock.Dims.{coalesce}

pub record CreateReservedStockProps : Type 0 where
  pub product_id : ℕ
  pub warehouse_id : ℕ
  pub batch_id : Option ℕ
  pub quantity : ℕ
  pub reference_type : String
  pub reference_id : ℕ
  pub expires_at : ℕ

pub record ReservedStockFilters : Type 0 where
  pub product_id : Option ℕ
  pub warehouse_id : Option ℕ
  pub status : Option ReservedStatus

abbrev pub is_active : ReservedStatus → Bool
is_active ReservedStatus.active = true
is_active ReservedStatus.released = false
is_active ReservedStatus.consumed = false
is_active ReservedStatus.expired = false

abbrev pub same_status : ReservedStatus → ReservedStatus → Bool
same_status ReservedStatus.active ReservedStatus.active = true
same_status ReservedStatus.released ReservedStatus.released = true
same_status ReservedStatus.consumed ReservedStatus.consumed = true
same_status ReservedStatus.expired ReservedStatus.expired = true
same_status _ _ = false

-- The balances that the trigger updates: every rack and location of the product, warehouse and batch.
unfoldable pub reserved_at : ReservedRow → BalanceRow → Bool
unfolding coalesce
reserved_at r b =
    b.product_id == r.product_id
    && (b.warehouse_id == r.warehouse_id && coalesce b.batch_id == coalesce r.batch_id)

unfoldable pub hold : ℕ → BalanceRow → BalanceRow
hold q b = record b { reserved_quantity = b.reserved_quantity + q }

-- `GREATEST(reserved_quantity - quantity, 0)`; subtraction on the naturals stops at 0.
unfoldable pub unhold : ℕ → BalanceRow → BalanceRow
unhold q b = record b { reserved_quantity = b.reserved_quantity - q }

-- `CHECK (reserved_quantity + blocked_quantity <= quantity)` fails for a row.
abbrev pub overheld : BalanceRow → Bool
overheld b = ltb b.quantity (b.reserved_quantity + b.blocked_quantity)

-- The trigger on `INSERT`.
unfoldable pub trg_reserved_inserted : ReservedRow → Trx (Unit {0})
unfolding reserved_at hold
trg_reserved_inserted r = do
  rows ← gets (λ db. db.stock_balances)
  throw_if (any (λ b. reserved_at r b && overheld (hold r.quantity b)) rows) check_violation
  modify (λ db. record db {
    stock_balances = update_where (reserved_at r) (hold r.quantity) db.stock_balances;
  })

-- The trigger on an `UPDATE` that leaves the status `active`.
unfoldable pub trg_reserved_ended : ReservedRow → Trx (Unit {0})
unfolding reserved_at unhold
trg_reserved_ended r = modify (λ db. record db {
  stock_balances = update_where (reserved_at r) (unhold r.quantity) db.stock_balances;
})

unfoldable pub find_reserved : ℕ → Trx (Option ReservedRow)
find_reserved = find_by_id reserved_stock

abbrev pub fits : Option ℕ → ℕ → Bool
fits none x = true
fits (some y) x = x == y

abbrev pub fits_status : Option ReservedStatus → ReservedStatus → Bool
fits_status none s = true
fits_status (some t) s = same_status s t

unfoldable pub find_all_reserved : ReservedStockFilters → Trx (List ReservedRow)
find_all_reserved filters = gets λ db.
    order_by_desc (λ r. r.reserved_at)
      (select_where
        (λ r.
          fits filters.product_id r.product_id
          && (fits filters.warehouse_id r.warehouse_id && fits_status filters.status r.status))
        db.reserved_stock)

unfoldable pub reserved_values : Clock → CreateReservedStockProps → Option ℕ → ℕ → ReservedRow
reserved_values clock props reserved_by id = record {
  id = id;
  product_id = props.product_id;
  warehouse_id = props.warehouse_id;
  batch_id = props.batch_id;
  quantity = props.quantity;
  reference_type = props.reference_type;
  reference_id = props.reference_id;
  reserved_by = reserved_by;
  reserved_at = clock.now;
  expires_at = props.expires_at;
  status = ReservedStatus.active;
  released_at = none;
}

unfoldable pub insert_reserved : Clock → CreateReservedStockProps → Option ℕ → Trx ReservedRow
unfolding reserved_values trg_reserved_inserted
insert_reserved clock props reserved_by = do
  id ← gen_random_uuid
  let row = reserved_values clock props reserved_by id
  insert reserved_stock row
  trg_reserved_inserted row
  pure row

-- One statement: the row and its trigger stand or fall together.
unfoldable pub create_reserved : Clock → CreateReservedStockProps → Option ℕ → Trx ReservedRow
unfolding insert_reserved
create_reserved clock props reserved_by = transaction (insert_reserved clock props reserved_by)

abbrev pub is_active_row : ℕ → ReservedRow → Bool
is_active_row id r = r.id == id && is_active r.status

unfoldable pub end_as : ReservedStatus → Clock → ReservedRow → ReservedRow
end_as status clock r = record r { status = status; released_at = some clock.now }

unfoldable pub release_reserved : Clock → ℕ → Trx (Option ReservedRow)
unfolding end_as trg_reserved_ended
release_reserved clock id db = elim (find_where (is_active_row id) db.reserved_stock) [
  | none ↦ pure none db
  | some r ↦
      (do
        update_all reserved_stock (is_active_row id) (end_as ReservedStatus.released clock)
        trg_reserved_ended r
        pure (some (end_as ReservedStatus.released clock r)))
        db
]

-- `WHERE status = 'active' AND expires_at <= now()`
abbrev pub is_overdue : Clock → ReservedRow → Bool
is_overdue clock r = is_active r.status && leb r.expires_at clock.now

-- "Auto Release Reserved Stock": the trigger runs for each row, and the count is returned.
unfoldable pub release_expired : Clock → Trx ℕ
unfolding end_as trg_reserved_ended for_each
release_expired clock = do
  overdue ← gets (λ db. select_where (is_overdue clock) db.reserved_stock)
  update_all reserved_stock (is_overdue clock) (end_as ReservedStatus.expired clock)
  for_each overdue trg_reserved_ended
  pure (length overdue)

unfoldable pub fn_release_expired_reservations : Clock → Trx ℕ
unfolding release_expired
fn_release_expired_reservations clock = transaction (release_expired clock)
