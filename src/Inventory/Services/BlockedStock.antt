-- ===== src/Inventory/Services/BlockedStock.antt =====
-- BlockedStockService (backend/src/modules/inventory/application/blocked-stock.service.ts).
use vrindavan.Base.{ℕ, Option, List}
use vrindavan.Exec.{◌>>=◌, or_throw}
use vrindavan.Inventory.Blocked.{
  BlockedStockFilters, CreateBlockedStockProps, find_all_blocked, find_blocked, create_blocked,
  release_blocked,
}
use vrindavan.Db.{Clock, BlockedRow}
use vrindavan.Inventory.Services.{HttpException, names, Service, catch_with}

unfoldable pub list : BlockedStockFilters → Service (List BlockedRow)
list filters = catch_with HttpException.unhandled (find_all_blocked filters)

unfoldable pub get_by_id : ℕ → Service BlockedRow
unfolding find_blocked
get_by_id id = do
  found ← catch_with HttpException.unhandled (find_blocked id)
  or_throw found (HttpException.not_found (names id))

unfoldable pub create : Clock → CreateBlockedStockProps → Option ℕ → Service BlockedRow
unfolding create_blocked
create clock props by = catch_with HttpException.unhandled (create_blocked clock props by)

unfoldable pub release : Clock → ℕ → Option ℕ → Service BlockedRow
unfolding release_blocked
release clock id by = do
  updated ← catch_with HttpException.unhandled (release_blocked clock id by)
  or_throw updated (HttpException.conflict (names id))
