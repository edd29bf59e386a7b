-- ===== src/Examples/Listings.antt =====
-- The ledger of the example company, listed with a limit of 0, and its current stock.
use vrindavan.Base.{◌≡◌, refl, none, some, List, [], ◌∷◌, arith, All}
use vrindavan.Exec.{ok}
use vrindavan.Db.{LedgerRow}
use vrindavan.Inventory.Ledger.{StockLedgerFilters, row_limit, fits_filters, find_ledger}
use vrindavan.Inventory.Ledger.Listing.{IsListing, find_ledger-lists}
use vrindavan.Stock.Consistent.{IsConsistent}
use vrindavan.Inventory.CurrentStock.{CurrentStockRow, get_current_stock}
use vrindavan.Inventory.CurrentStock.Totals.{IsPlaced, IsStockOf, get_current_stock-lists}
use vrindavan.Examples.{opening, shop, tea}

abbrev of_product : StockLedgerFilters
of_product = record { product_id = some 1; warehouse_id = none; limit = some 0 }

find_ledger-lists_example :
    (rows : List LedgerRow) × find_ledger of_product shop ≡ (ok rows, shop)
    × IsListing of_product shop rows
find_ledger-lists_example = find_ledger-lists of_product shop

-- A limit of 0 is read as 1.
one_row : find_ledger of_product shop ≡ (ok (opening ∷ []), shop)
unfolding find_ledger row_limit fits_filters
one_row = refl

shop-IsConsistent : IsConsistent shop
shop-IsConsistent = record {
  derivable = λ d. ground arith;
  unique = (refl, tt);
  covered = (omega arith, tt);
}

shelf-IsPlaced : All (IsPlaced shop) shop.stock_balances
shelf-IsPlaced = (
  record {
    product = tea;
    product_found = refl;
    warehouse = record { id = 1; name = "Main" };
    warehouse_found = refl;
  },
  tt,
)

get_current_stock-lists_example :
    (rows : List CurrentStockRow) × get_current_stock
        (record { product_id = some 1; warehouse_id = none })
        shop
      ≡ (ok rows, shop)
    × IsStockOf shop 1 rows
get_current_stock-lists_example = get_current_stock-lists shop 1 shop-IsConsistent shelf-IsPlaced
