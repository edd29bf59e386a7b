-- ===== src/Trade/Services.antt =====
-- What the services of sales and purchase have in common (backend/src/modules/{sales,purchase}/
-- application/*.service.ts), beside the shape that they share with those of the inventory.
pub mod Failures
use vrindavan.Base.{ℕ, Bool, not, Option, List}
use vrindavan.Exec.{◌>>=◌, or_throw, throw_if}
use vrindavan.Db.{Error, Trx, Clock, invalid_allocation}
use vrindavan.Inventory.Services.{
  HttpException, Service, DocumentRepository, DocumentService, catch_with, message_of, names,
  answer_document, serve,
}

-- `findById`, and 404 for nothing.
abbrev pub get_from : {D : Type 0} → (ℕ → Trx (Option D)) → ℕ → Service D
get_from find id = do
  found ← catch_with HttpException.unhandled (find id)
  or_throw found (HttpException.not_found (names id))

-- `delete`, and 409 where nothing was deleted.
abbrev pub remove_from : (ℕ → Trx Bool) → ℕ → Service (Unit {0})
remove_from delete id = do
  deleted ← catch_with HttpException.unhandled (delete id)
  throw_if (not deleted) (HttpException.conflict (names id))

-- The `instanceof` of CustomerPaymentsService and SupplierPaymentsService.
unfoldable pub answer_payment : Error → HttpException
answer_payment (invalid_allocation invoice) =
    HttpException.bad_request (message_of (invalid_allocation invoice))
answer_payment e = HttpException.unhandled e

-- `CustomerPaymentsService` and `SupplierPaymentsService`.
pub record PaymentService (D P : Type 0) : Type 0 where
  pub list_all : Service (List D)
  pub get : ℕ → Service D
  pub create_one : Clock → P → Option ℕ → Service D

abbrev pub serve_payments :
    {D P : Type 0}
    → Trx (List D)
    → (ℕ → Trx (Option D))
    → (Clock → P → Option ℕ → Trx D)
    → PaymentService D P
serve_payments find_all find_by_id create = record {
  list_all = catch_with HttpException.unhandled find_all;
  get = get_from find_by_id;
  create_one = λ clock props by. catch_with answer_payment (create clock props by);
}

-- `SalesOrdersService` and `PurchaseOrdersService`: those of a document, and `cancel`.
pub record OrderService (D P : Type 0) : Type 0 where
  pub documents : DocumentService D P
  pub cancel_one : Clock → ℕ → Service D

unfoldable pub serve_orders :
    {D P : Type 0} → DocumentRepository D P → (Clock → ℕ → Trx D) → OrderService D P
unfolding serve answer_document
serve_orders repository cancel = record {
  documents = serve repository answer_document;
  cancel_one = λ clock id. catch_with answer_document (cancel clock id);
}
