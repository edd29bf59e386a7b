-- ===== src/Stock/Posting.antt =====
-- The helpers that every stock document calls inside its own transaction
-- (backend/src/modules/inventory/infrastructure/stock-posting.helper.ts).
use vrindavan.Base.{
  Bool, not, ◌&&◌, ◌||◌, ℕ, String, Option, none, some, List, [], ◌∷◌, ◌++◌, ◌*◌, ltb, ◌==◌, get_or,
  find_where, if◌then◌else◌,
}
use vrindavan.Exec.{◌>>=◌, ◌>>◌, gets, pure, throw, throw_if, modify}
use vrindavan.Db.{
  Db, Dims, BalanceRow, LedgerRow, MovementType, ReferenceType, Trx, Clock, insufficient_stock,
  check_violation, gen_random_uuid,
}
use vrindavan.Stock.Trigger.{find_balance, trg_stock_ledger_to_balance}

pub record LiveBalance : Type 0 where
  pub quantity : ℕ
  pub average_cost : ℕ

pub record PostMovementInput : Type 0 where
  pub dims : Dims
  pub open dims use *
  pub movement_type : MovementType
  pub qty_in : Option ℕ
  pub qty_out : Option ℕ
  pub unit_cost : Option ℕ
  pub reference_type : ReferenceType
  pub reference_id : ℕ
  pub reference_line_id : Option ℕ
  pub remarks : Option String
  pub created_by : Option ℕ

abbrev pub live_balance_at : Dims → List BalanceRow → Option LiveBalance
live_balance_at d rows = elim (find_balance d rows) [
  | none ↦ none
  | some r ↦ some (record { quantity = r.quantity; average_cost = r.average_cost })
]

unfoldable pub get_live_balance : Dims → Trx (Option LiveBalance)
get_live_balance d = gets (λ db. live_balance_at d db.stock_balances)

abbrev pub quantity_of : Option LiveBalance → ℕ
quantity_of none = 0
quantity_of (some b) = b.quantity

abbrev pub cost_of : Option LiveBalance → ℕ
cost_of none = 0
cost_of (some b) = b.average_cost

-- `product?.name ?? 'product'`
unfoldable pub product_name : ℕ → Db → String
product_name id db = elim (find_where (λ p. p.id == id) db.products) [
  | none ↦ "product"
  | some p ↦ p.name
]

unfoldable pub refuse_short : PostMovementInput → ℕ → ℕ → Trx (Unit {0})
unfolding product_name
refuse_short input available required = do
  name ← gets (product_name input.product_id)
  throw (insufficient_stock name available required)

unfoldable pub check_on_hand : PostMovementInput → ℕ → Trx (Unit {0})
unfolding get_live_balance refuse_short
check_on_hand input qty_out = do
  balance ← get_live_balance input.dims
  let available = quantity_of balance
  if ltb available qty_out then refuse_short input available (qty_out * 1000000) else pure tt

-- The guard of an outbound movement: no more may leave than is on hand at that dimension.
unfoldable pub require_available : PostMovementInput → ℕ → Trx (Unit {0})
unfolding check_on_hand
require_available input qty_out = if ltb 0 qty_out then check_on_hand input qty_out else pure tt

-- `CHECK ((qty_in > 0 AND qty_out = 0) OR (qty_out > 0 AND qty_in = 0))` of `stock_ledger`
unfoldable pub is_one_way : LedgerRow → Bool
is_one_way e = (ltb 0 e.qty_in && e.qty_out == 0) || (ltb 0 e.qty_out && e.qty_in == 0)

-- `INSERT INTO stock_ledger`, and the trigger that runs after it.
unfoldable pub insert_ledger : LedgerRow → Trx (Unit {0})
unfolding is_one_way trg_stock_ledger_to_balance
insert_ledger e = do
  throw_if (not (is_one_way e)) check_violation
  modify (λ db. record db { stock_ledger = db.stock_ledger ++ e ∷ [] })
  trg_stock_ledger_to_balance e

unfoldable pub ledger_row : Clock → PostMovementInput → ℕ → LedgerRow
ledger_row clock input id = record {
  id = id;
  dims = input.dims;
  movement_type = input.movement_type;
  qty_in = get_or input.qty_in 0;
  qty_out = get_or input.qty_out 0;
  unit_cost = get_or input.unit_cost 0;
  reference_type = input.reference_type;
  reference_id = input.reference_id;
  reference_line_id = input.reference_line_id;
  remarks = input.remarks;
  created_by = input.created_by;
  created_at = clock.now;
}

unfoldable pub post_stock_movement : Clock → PostMovementInput → Trx (Unit {0})
unfolding require_available ledger_row insert_ledger
post_stock_movement clock input = do
  require_available input (get_or input.qty_out 0)
  id ← gen_random_uuid
  insert_ledger (ledger_row clock input id)
