-- ===== src/Inventory/OpeningStock.antt =====
-- Opening stock (backend/src/modules/inventory: infrastructure/opening-stock.kysely-repository.ts).
pub mod Once
use vrindavan.Base.{ℕ, Bool, true, false, Option, none, some, ◌==◌, ◌&&◌, any}
use vrindavan.Exec.{◌>>=◌, ◌>>◌, gets, transaction, throw_if}
use vrindavan.Db.{
  Db, Trx, Clock, LedgerRow, MovementType, ReferenceType, opening_stock_already_posted,
}
use vrindavan.Stock.Posting.{PostMovementInput, post_stock_movement}

abbrev pub is_opening : MovementType → Bool
is_opening MovementType.opening_stock = true
is_opening _ = false

abbrev pub is_product : ReferenceType → Bool
is_product ReferenceType.product = true
is_product _ = false

-- The row by which a product's opening stock was posted (`hasOpeningStockBeenPosted` of
-- stock-ledger.kysely-repository.ts makes the same query).
unfoldable pub is_opening_row : ℕ → LedgerRow → Bool
is_opening_row product_id e =
    is_opening e.movement_type && (is_product e.reference_type && e.reference_id == product_id)

unfoldable pub has_opening_stock_been_posted : ℕ → Db → Bool
unfolding is_opening_row
has_opening_stock_been_posted product_id db = any (is_opening_row product_id) db.stock_ledger

unfoldable pub opening_movement : ℕ → ℕ → ℕ → ℕ → Option ℕ → PostMovementInput
opening_movement product_id warehouse_id quantity unit_cost created_by = record {
  dims = record {
    product_id = product_id;
    warehouse_id = warehouse_id;
    rack_id = none;
    location_id = none;
    batch_id = none;
  };
  movement_type = MovementType.opening_stock;
  qty_in = some quantity;
  qty_out = none;
  unit_cost = some unit_cost;
  reference_type = ReferenceType.product;
  reference_id = product_id;
  reference_line_id = none;
  remarks = none;
  created_by = created_by;
}

-- The transaction's callback.
unfoldable pub post_unposted : Clock → ℕ → ℕ → ℕ → ℕ → Option ℕ → Trx (Unit {0})
unfolding has_opening_stock_been_posted opening_movement
post_unposted clock product_id warehouse_id quantity unit_cost created_by = do
  existing ← gets (has_opening_stock_been_posted product_id)
  throw_if existing (opening_stock_already_posted product_id)
  post_stock_movement clock (opening_movement product_id warehouse_id quantity unit_cost created_by)

unfoldable pub post_opening_stock : Clock → ℕ → ℕ → ℕ → ℕ → Option ℕ → Trx (Unit {0})
unfolding post_unposted
post_opening_stock clock product_id warehouse_id quantity unit_cost created_by =
    transaction (post_unposted clock product_id warehouse_id quantity unit_cost created_by)
