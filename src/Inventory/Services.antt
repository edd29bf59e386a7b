-- ===== src/Inventory/Services.antt =====
-- The services of the stock documents (backend/src/modules/inventory/application/*.service.ts): which
-- HTTP exception answers for which outcome of a repository. A service knows its repository by the
-- interface of domain/*.repository.interface.ts.
pub mod Documents
pub mod ReservedStock
pub mod BlockedStock
pub mod OpeningStock
pub mod Answers
pub mod Failures
use vrindavan.Base.{ℕ, Bool, true, false, Option, none, some, List, ltb, not, find_where, ◌==◌}
use vrindavan.Exec.{Exec, Result, ok, err, ◌>>=◌, ◌>>◌, gets, pure, or_throw, throw_if}
use vrindavan.Db.{
  Db, Error, Trx, Clock, ReservedRow, BlockedRow, document_not_found, document_not_draft,
  insufficient_stock, opening_stock_already_posted,
}

-- What a message is made from: the caught error's own message, or the id that the text names.
pub data Message : Type 0 where
  message_of : Error → Message
  names : ℕ → Message

-- `NotFoundException`, `ConflictException`, `BadRequestException`, and an error that is thrown on as
-- it is, for which the filter of the application answers: 400 for a CHECK that failed, 409 for a
-- UNIQUE or a reference, and else 500.
pub data HttpException : Type 0 where
  not_found conflict bad_request : Message → HttpException
  unhandled : Error → HttpException

abbrev pub Service : Type 0 → Type 0
Service = Exec Db HttpException

abbrev pub answer_result :
    {A : Type 0} → (Error → HttpException) → Result Error A × Db → Result HttpException A × Db
answer_result answer (ok a, t) = (ok a, t)
answer_result answer (err e, t) = (err (answer e), t)

-- `try { … } catch (err) { … }` around a repository's method.
abbrev pub catch_with : {A : Type 0} → (Error → HttpException) → Trx A → Service A
catch_with answer m s = answer_result answer (m s)

-- The chain of `instanceof` of StockAdjustmentsService, StockReturnsService and
-- PhysicalVerificationsService.
unfoldable pub answer_document : Error → HttpException
answer_document (document_not_found id) =
    HttpException.not_found (message_of (document_not_found id))
answer_document (document_not_draft id) =
    HttpException.conflict (message_of (document_not_draft id))
answer_document e = HttpException.unhandled e

-- That of StockTransfersService and DamagedStockService, which catch one error more.
unfoldable pub answer_movement : Error → HttpException
unfolding answer_document
answer_movement (insufficient_stock name available required) =
    HttpException.conflict (message_of (insufficient_stock name available required))
answer_movement e = answer_document e

-- `IStockTransferRepository` and the like, of a document `D` made from `P`.
pub record DocumentRepository (D P : Type 0) : Type 0 where
  pub find_all : Trx (List D)
  pub find_by_id : ℕ → Trx (Option D)
  pub create_with_lines : Clock → P → Option ℕ → Trx D
  pub approve : Clock → Option ℕ → ℕ → Trx D
  pub delete : ℕ → Trx Bool

module _ {D P : Type 0} (repository : DocumentRepository D P) (answer : Error → HttpException) where
  unfoldable pub list : Service (List D)
  list = catch_with HttpException.unhandled repository.find_all

  unfoldable pub get_by_id : ℕ → Service D
  get_by_id id = do
    found ← catch_with HttpException.unhandled (repository.find_by_id id)
    or_throw found (HttpException.not_found (names id))

  unfoldable pub create : Clock → P → Option ℕ → Service D
  create clock props by =
      catch_with HttpException.unhandled (repository.create_with_lines clock props by)

  unfoldable pub approve : Clock → Option ℕ → ℕ → Service D
  approve clock by id = catch_with answer (repository.approve clock by id)

  unfoldable pub remove : ℕ → Service (Unit {0})
  remove id = do
    deleted ← catch_with HttpException.unhandled (repository.delete id)
    throw_if (not deleted) (HttpException.conflict (names id))

-- `StockTransfersService` and the like.
pub record DocumentService (D P : Type 0) : Type 0 where
  pub list_all : Service (List D)
  pub get : ℕ → Service D
  pub create_one : Clock → P → Option ℕ → Service D
  pub approve_one : Clock → Option ℕ → ℕ → Service D
  pub remove_one : ℕ → Service (Unit {0})

unfoldable pub serve :
    {D P : Type 0} → DocumentRepository D P → (Error → HttpException) → DocumentService D P
unfolding list get_by_id create approve remove
serve repository answer = record {
  list_all = list repository answer;
  get = get_by_id repository answer;
  create_one = create repository answer;
  approve_one = approve repository answer;
  remove_one = remove repository answer;
}
