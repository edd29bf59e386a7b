-- ===== src/Inventory/Ledger.antt =====
-- The listing of the stock ledger (backend/src/modules/inventory/infrastructure/
-- stock-ledger.kysely-repository.ts, by `getLedger` of application/stock-views.service.ts).
pub mod Listing
use vrindavan.Base.{
  ℕ, zero, suc, ◌≤◌, ◌≡◌, refl, ◌∙◌, ap, Bool, true, ◌&&◌, ◌==◌, Option, none, some, List, [], ◌∷◌,
  leb, arith, All, length, select_where, order_by_desc, insert_desc, get_or, if◌then◌else◌,
}
use vrindavan.Exec.{ok, gets}
use vrindavan.Db.{Db, Trx, LedgerRow}

pub record StockLedgerFilters : Type 0 where
  pub product_id : Option ℕ
  pub warehouse_id : Option ℕ
  pub limit : Option ℕ

abbrev pub min : ℕ → ℕ → ℕ
min m n = if leb m n then m else n

abbrev pub max : ℕ → ℕ → ℕ
max m n = if leb m n then n else m

-- `Math.min(Math.max(filters.limit ?? 100, 1), 500)`
unfoldable pub row_limit : StockLedgerFilters → ℕ
row_limit filters = min (max (get_or filters.limit 100) 1) 500

abbrev pub fits : Option ℕ → ℕ → Bool
fits none x = true
fits (some y) x = x == y

unfoldable pub fits_filters : StockLedgerFilters → LedgerRow → Bool
fits_filters filters e =
    fits filters.product_id e.product_id && fits filters.warehouse_id e.warehouse_id

-- `LIMIT n`
abbrev pub first_rows : {R : Type 0} → ℕ → List R → List R
first_rows zero xs = []
first_rows (suc n) [] = []
first_rows (suc n) (x ∷ xs) = x ∷ first_rows n xs

unfoldable pub find_ledger : StockLedgerFilters → Trx (List LedgerRow)
unfolding row_limit fits_filters
find_ledger filters = gets λ db.
    first_rows (row_limit filters)
      (order_by_desc (λ e. e.created_at) (select_where (fits_filters filters) db.stock_ledger))
