-- ===== src/Trade/Fulfilment.antt =====
-- Notes that fulfil an order: `deliver` of delivery-challan.kysely-repository.ts and `complete` of
-- goods-received-note.kysely-repository.ts. Each line moves stock and counts towards a line of the
-- order; then the order's status follows from its lines.
pub mod Laws
pub mod Raises
pub mod Returns
pub mod Unrounded
use vrindavan.Base.{
  ℕ, ◌*◌, Bool, ◌&&◌, Option, none, some, List, any, all, select_where, find_where, ltb, leb, ◌==◌,
  get_or, if◌then◌else◌,
}
use vrindavan.Exec.{◌>>=◌, ◌>>◌, gets, pure, transaction, or_throw}
use vrindavan.Db.{Db, Trx, Clock, no_result}
use vrindavan.Tables.{Table, has_id, update_all}
use vrindavan.Stock.Trigger.{round_div}
use vrindavan.Stock.Posting.{
  PostMovementInput, get_live_balance, quantity_of, refuse_short, post_stock_movement,
}
use vrindavan.Inventory.Document.{Document, Loaded, approval}

abbrev pub millionths : ℕ
millionths = 1000000

-- `quantity * conversionFactor`, in thousandths, as the column rounds it.
unfoldable pub base_quantity : ℕ → ℕ → ℕ
unfolding round_div
base_quantity quantity factor = round_div (quantity * factor) millionths

-- `rate / conversionFactor`, in ten-thousandths.
unfoldable pub base_unit_cost : ℕ → ℕ → ℕ
unfolding round_div
base_unit_cost rate factor = round_div (rate * 100000000) factor

-- `postStockMovement` for a quantity that goes out: its guard compares the product of `quantity`
-- and `factor` before the column rounds it. The product is exact, where the
-- program has the nearest double, which is above 0.3 for 3 of a unit of 0.1.
unfoldable pub post_unrounded : Clock → PostMovementInput → ℕ → Trx (Unit {0})
unfolding get_live_balance refuse_short post_stock_movement
post_unrounded clock input exact = do
  balance ← get_live_balance input.dims
  if ltb (quantity_of balance * millionths) exact
      then refuse_short input (quantity_of balance) exact
      else post_stock_movement clock input

-- A kind of note (`H`, `L`) and the kind of order (`O`, `M`) that it fulfils.
pub record Fulfils (H L O M : Type 0) : Type 0 where
  pub note : Document H L
  pub orders : Table O
  pub order_lines : Table M
  -- the references of a note and of its line
  pub order_of : H → Option ℕ
  pub order_line_of : L → Option ℕ
  pub unit_of : L → ℕ
  pub quantity_on : L → ℕ
  -- the movement of a line, in a unit of the conversion factor given
  pub post : Clock → H → L → ℕ → Trx (Unit {0})
  pub stamp : Clock → H → H
  pub order_of_line : M → ℕ
  pub ordered : M → ℕ
  pub fulfilled : M → ℕ
  pub add : ℕ → M → M
  -- the statuses that may still change, and the two that are written
  pub is_open : O → Bool
  pub completed : Clock → O → O
  pub partially : Clock → O → O

module _ {H L O M : Type 0} (f : Fulfils H L O M) where
  abbrev pub count_order_line : L → Option ℕ → Trx (Unit {0})
  count_order_line line none = pure tt
  count_order_line line (some id) =
      update_all f.order_lines (has_id f.order_lines id) (f.add (f.quantity_on line))

  abbrev pub count_towards : L → Trx (Unit {0})
  count_towards line = count_order_line line (f.order_line_of line)

  unfoldable pub fulfil_line : Clock → H → L → Trx (Unit {0})
  fulfil_line clock header line = do
    found ← gets (λ db. find_where (λ u. u.id == f.unit_of line) db.product_units)
    unit ← or_throw found no_result
    f.post clock header line unit.conversion_factor
    count_towards line

  abbrev pub lines_of_order : ℕ → Db → List M
  lines_of_order id db = select_where (λ m. f.order_of_line m == id) (f.order_lines.rows db)

  abbrev pub is_complete : List M → Bool
  is_complete = all (λ m. leb (f.ordered m) (f.fulfilled m))

  abbrev pub is_begun : List M → Bool
  is_begun = any (λ m. ltb 0 (f.fulfilled m))

  abbrev pub write_status : (O → O) → ℕ → Trx (Unit {0})
  write_status status id = update_all f.orders (λ o. has_id f.orders id o && f.is_open o) status

  unfoldable pub refresh_order : Clock → ℕ → Trx (Unit {0})
  refresh_order clock id = do
    lines ← gets (lines_of_order id)
    if is_complete lines
        then write_status (f.completed clock) id
        else if is_begun lines
        then write_status (f.partially clock) id
        else pure tt

  abbrev pub follow_order : Clock → Option ℕ → Trx (Unit {0})
  follow_order clock none = pure tt
  follow_order clock (some id) = refresh_order clock id

  -- The order is that of the header, which the stamp leaves as it was.
  unfoldable pub fulfil : Clock → ℕ → Trx (Loaded H L)
  unfolding approval fulfil_line refresh_order
  fulfil clock id = transaction (do
    done ← approval f.note (fulfil_line clock) (f.stamp clock) id
    follow_order clock (f.order_of done.header)
    pure done)
