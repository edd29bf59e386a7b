-- ===== src/Inventory/Services/OpeningStock.antt =====
-- OpeningStockService (backend/src/modules/inventory/application/opening-stock.service.ts).
use vrindavan.Base.{ℕ, ◌*◌, Option, ltb, not, find_where, ◌==◌}
use vrindavan.Exec.{◌>>=◌, ◌>>◌, gets, or_throw, throw_if}
use vrindavan.Db.{Error, Clock, opening_stock_already_posted}
use vrindavan.Inventory.OpeningStock.{post_opening_stock}
use vrindavan.Inventory.Services.{HttpException, message_of, names, Service, catch_with}

unfoldable pub answer_opening : Error → HttpException
answer_opening (opening_stock_already_posted id) =
    HttpException.conflict (message_of (opening_stock_already_posted id))
answer_opening e = HttpException.unhandled e

-- `OpeningStockService.post`: the product gives the quantity, in thousandths, and the cost: its
-- price in hundredths is a cost in ten-thousandths.
unfoldable pub post_opening : Clock → ℕ → ℕ → Option ℕ → Service (Unit {0})
unfolding post_opening_stock answer_opening
post_opening clock product_id warehouse_id by = do
  found ← gets (λ db. find_where (λ p. p.id == product_id) db.products)
  product ← or_throw found (HttpException.not_found (names product_id))
  throw_if (not (ltb 0 product.opening_stock)) (HttpException.bad_request (names product_id))
  catch_with answer_opening (
      post_opening_stock clock product_id warehouse_id product.opening_stock
        (product.purchase_price * 100) by)
