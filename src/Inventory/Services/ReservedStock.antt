-- ===== src/Inventory/Services/ReservedStock.antt =====
-- ReservedStockService (backend/src/modules/inventory/application/reserved-stock.service.ts).
use vrindavan.Base.{ℕ, Option, List}
use vrindavan.Exec.{◌>>=◌, or_throw}
use vrindavan.Inventory.Reserved.{
  ReservedStockFilters, CreateReservedStockProps, find_all_reserved, find_reserved, create_reserved,
  release_reserved,
}
use vrindavan.Db.{Clock, ReservedRow}
use vrindavan.Inventory.Services.{HttpException, names, Service, catch_with}

unfoldable pub list : ReservedStockFilters → Service (List ReservedRow)
list filters = catch_with HttpException.unhandled (find_all_reserved filters)

unfoldable pub get_by_id : ℕ → Service ReservedRow
unfolding find_reserved
get_by_id id = do
  found ← catch_with HttpException.unhandled (find_reserved id)
  or_throw found (HttpException.not_found (names id))

unfoldable pub create : Clock → CreateReservedStockProps → Option ℕ → Service ReservedRow
unfolding create_reserved
create clock props by = catch_with HttpException.unhandled (create_reserved clock props by)

unfoldable pub release : Clock → ℕ → Service ReservedRow
unfolding release_reserved
release clock id = do
  updated ← catch_with HttpException.unhandled (release_reserved clock id)
  or_throw updated (HttpException.conflict (names id))
