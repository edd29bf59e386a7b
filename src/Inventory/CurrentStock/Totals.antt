-- ===== src/Inventory/CurrentStock/Totals.antt =====
-- What the listing of the current stock of a product adds up to
-- (backend/src/modules/inventory/infrastructure/stock-balance.kysely-repository.ts).
use vrindavan.Base.{
  ℕ, ◌+◌, ◌*◌, ◌≡◌, refl, true, ◌==◌, ==→eq, none, some, List, [], ◌∷◌, All, arith, sum_by,
  select_where, find_where, find_where-passes,
}
use vrindavan.Exec.{ok}
use vrindavan.Db.{Db, BalanceRow, ProductRow, WarehouseRow}
use vrindavan.Stock.Balances.{CoversHolds, total_quantity}
use vrindavan.Stock.Consistent.{IsConsistent}
use vrindavan.Inventory.CurrentStock.{
  CurrentStockRow, current_stock_row, current_stock, get_current_stock,
}

-- The product and the warehouse of a balance are in their tables.
pub record IsPlaced (db : Db) (b : BalanceRow) : Type 0 where
  pub product : ProductRow
  pub product_found : find_where (λ p. p.id == b.product_id) db.products ≡ some product
  pub warehouse : WarehouseRow
  pub warehouse_found : find_where (λ w. w.id == b.warehouse_id) db.warehouses ≡ some warehouse

-- A row divides the quantity into what is free, reserved and blocked, and values all of it.
abbrev pub IsDivided : CurrentStockRow → Type 0
IsDivided r =
    (r.available_quantity + r.reserved_quantity + r.blocked_quantity ≡ r.quantity)
    × (r.stock_value ≡ r.quantity * r.average_cost)

module _ (db : Db) (id : ℕ) where
  abbrev of_id : List CurrentStockRow → List CurrentStockRow
  of_id = select_where (λ r. r.product_id == id)

  rows-total :
      (bs : List BalanceRow)
      → All (IsPlaced db) bs
      → sum_by (λ r. r.quantity) (of_id (current_stock db bs)) ≡ total_quantity id bs
  unfolding total_quantity current_stock_row
  rows-total [] h = refl
  rows-total (b ∷ bs) h =
      let same =
        ==→eq h.0.product.id b.product_id
          (find_where-passes (λ p. p.id == b.product_id) db.products h.0.product_found) in
      rw (h.0.product_found, h.0.warehouse_found) (ground (arith, same, rows-total bs h.1))

  divided :
      (bs : List BalanceRow)
      → All (IsPlaced db) bs
      → All CoversHolds bs
      → All IsDivided (of_id (current_stock db bs))
  unfolding current_stock_row
  divided [] h c = tt
  divided (b ∷ bs) h c =
      rw (h.0.product_found, h.0.warehouse_found) (ground (arith, divided bs h.1 c.1))

  addressed : (rows : List CurrentStockRow) → All (λ r. (r.product_id == id) ≡ true) (of_id rows)
  addressed [] = tt
  addressed (r ∷ rows) = ground (arith, addressed rows)

  pub record IsStockOf (rows : List CurrentStockRow) : Type 0 where
    pub addressed : All (λ r. (r.product_id == id) ≡ true) rows
    pub divided : All IsDivided rows
    pub complete : sum_by (λ r. r.quantity) rows ≡ total_quantity id db.stock_balances

  -- Where the stock tables are consistent and every balance's product and warehouse are in their
  -- tables, the listing for a product answers and changes nothing: its rows are of that product, the
  -- free, reserved and blocked quantities of each add up to its quantity, at which it is valued, and
  -- the rows together have all that the balances hold of the product.
  pub get_current_stock-lists :
      IsConsistent db
      → All (IsPlaced db) db.stock_balances
      → (rows : List CurrentStockRow) × get_current_stock
            (record { product_id = some id; warehouse_id = none })
            db
          ≡ (ok rows, db)
        × IsStockOf rows
  unfolding get_current_stock
  get_current_stock-lists c placed = (
    of_id (current_stock db db.stock_balances),
    refl,
    record {
      addressed = addressed (current_stock db db.stock_balances);
      divided = divided db.stock_balances placed c.covered;
      complete = rows-total db.stock_balances placed;
    },
  )
