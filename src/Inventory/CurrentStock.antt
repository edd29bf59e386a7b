-- ===== src/Inventory/CurrentStock.antt =====
-- The current stock: v_current_stock of database/views/001_reporting_views.sql and
-- backend/src/modules/inventory/infrastructure/stock-balance.kysely-repository.ts, by
-- `getCurrentStock` of application/stock-views.service.ts.
pub mod Totals
use vrindavan.Base.{
  ℕ, String, ◌-◌, ◌*◌, ◌==◌, Option, none, some, List, [], ◌∷◌, find_where, select_where,
}
use vrindavan.Exec.{gets}
use vrindavan.Db.{Db, Trx, BalanceRow, ProductRow, WarehouseRow}

pub record CurrentStockRow : Type 0 where
  pub stock_balance_id : ℕ
  pub product_id : ℕ
  pub product_name : String
  pub sku : String
  pub warehouse_id : ℕ
  pub warehouse_name : String
  pub rack_name : Option String
  pub location_name : Option String
  pub batch_number : Option String
  pub expiry_date : Option ℕ
  pub quantity : ℕ
  pub reserved_quantity : ℕ
  pub blocked_quantity : ℕ
  pub available_quantity : ℕ
  pub average_cost : ℕ
  pub stock_value : ℕ

pub record StockBalanceFilters : Type 0 where
  pub product_id : Option ℕ
  pub warehouse_id : Option ℕ

-- `LEFT JOIN … ON id = key`, and a column of the row that is joined.
abbrev pub joined : {R A : Type 0} → (R → ℕ) → (R → A) → List R → Option ℕ → Option A
joined id_of column rows none = none
joined id_of column rows (some id) = elim (find_where (λ r. id_of r == id) rows) [
  | none ↦ none
  | some r ↦ some (column r)
]

-- `LEFT JOIN product_batches`, whose `expiry_date` may be NULL too.
abbrev pub flat : {A : Type 0} → Option (Option A) → Option A
flat none = none
flat (some o) = o

unfoldable pub current_stock_row : Db → BalanceRow → ProductRow → WarehouseRow → CurrentStockRow
current_stock_row db b p w = record {
  stock_balance_id = b.id;
  product_id = p.id;
  product_name = p.name;
  sku = p.sku;
  warehouse_id = w.id;
  warehouse_name = w.name;
  rack_name = joined (λ r. r.id) (λ r. r.name) db.racks b.rack_id;
  location_name = joined (λ r. r.id) (λ r. r.name) db.locations b.location_id;
  batch_number = joined (λ r. r.id) (λ r. r.batch_number) db.product_batches b.batch_id;
  expiry_date = flat (joined (λ r. r.id) (λ r. r.expiry_date) db.product_batches b.batch_id);
  quantity = b.quantity;
  reserved_quantity = b.reserved_quantity;
  blocked_quantity = b.blocked_quantity;
  available_quantity = b.quantity - b.reserved_quantity - b.blocked_quantity;
  average_cost = b.average_cost;
  stock_value = b.quantity * b.average_cost;
}

-- `JOIN products` and `JOIN warehouses`: a balance without them gives no row.
abbrev pub row_of :
    Db
    → BalanceRow
    → Option ProductRow
    → Option WarehouseRow
    → List CurrentStockRow
    → List CurrentStockRow
row_of db b (some p) (some w) rest = current_stock_row db b p w ∷ rest
row_of db b (some p) none rest = rest
row_of db b none w rest = rest

abbrev pub current_stock : Db → List BalanceRow → List CurrentStockRow
current_stock db [] = []
current_stock db (b ∷ bs) =
    row_of db b (find_where (λ p. p.id == b.product_id) db.products)
      (find_where (λ w. w.id == b.warehouse_id) db.warehouses) (current_stock db bs)

-- `if (filters.productId) query = query.where(…)`
abbrev pub where_id : (CurrentStockRow → ℕ) → Option ℕ → List CurrentStockRow → List CurrentStockRow
where_id column none rows = rows
where_id column (some id) rows = select_where (λ r. column r == id) rows

unfoldable pub get_current_stock : StockBalanceFilters → Trx (List CurrentStockRow)
unfolding current_stock_row
get_current_stock filters = gets λ db.
    where_id (λ r. r.warehouse_id) filters.warehouse_id
      (where_id (λ r. r.product_id) filters.product_id (current_stock db db.stock_balances))
