-- ===== src/Inventory/Services/Answers.antt =====
-- What the services of the documents answer when an approval fails.
use vrindavan.Base.{◌≡◌, true, false, Bool, ◌||◌, arith, subst}
use vrindavan.Exec.{Result, ok, err}
use vrindavan.Exec.Raises.{Raised, Raises}
use vrindavan.Db.{Db, Trx, Error, document_not_found, document_not_draft}
use vrindavan.Stock.Refusal.{is_insufficient, is_storage, IsStorage}
use vrindavan.Inventory.Services.{
  HttpException, answer_result, catch_with, answer_document, answer_movement,
}

-- The errors that an approval may meet.
abbrev pub is_document_error : Error → Bool
is_document_error (document_not_found id) = true
is_document_error (document_not_draft id) = true
is_document_error e = is_storage e

abbrev pub is_movement_error : Error → Bool
is_movement_error e = is_insufficient e || is_document_error e

-- The answer is 404 or 409, or an error of the database was thrown on.
abbrev pub is_answer : HttpException → Bool
is_answer (HttpException.not_found m) = true
is_answer (HttpException.conflict m) = true
is_answer (HttpException.bad_request m) = false
is_answer (HttpException.unhandled e) = is_storage e

module _ {D : Type 0} (accepts : HttpException → Bool) (m : Trx D) (answer : Error → HttpException)
    (Q : Error → Bool) (raises : Raises (λ e. Q e ≡ true) m)
    (atomic : (s t : Db) (e : Error) → m s ≡ (err e, t) → t ≡ s)
    (answers : (e : Error) → Q e ≡ true → accepts (answer e) ≡ true) where
  settle :
      (s t : Db) (x : HttpException) (r : Result Error D × Db)
      → Raised (λ e. Q e ≡ true) r
      → ((e : Error) → r ≡ (err e, t) → t ≡ s)
      → answer_result answer r ≡ (err x, t)
      → (accepts x ≡ true) × (t ≡ s)
  settle s t x (ok a, u) h k e = absurd (cc e)
  settle s t x (err f, u) h k e = (subst (λ y. accepts y ≡ true) (cc e) (answers f h), k f (cc e))

  pub caught :
      (s t : Db) (x : HttpException)
      → catch_with answer m s ≡ (err x, t)
      → (accepts x ≡ true) × (t ≡ s)
  caught s t x = settle s t x (m s) (raises.at s) (atomic s t)

pub answer_document-IsAnswer :
    (e : Error) → is_document_error e ≡ true → is_answer (answer_document e) ≡ true
unfolding answer_document
answer_document-IsAnswer e h = ground arith

pub answer_movement-IsAnswer :
    (e : Error) → is_movement_error e ≡ true → is_answer (answer_movement e) ≡ true
unfolding answer_movement answer_document
answer_movement-IsAnswer e h = ground arith

pub storage_document : (e : Error) → IsStorage e → is_document_error e ≡ true
storage_document e h = ground arith

pub storage_movement : (e : Error) → IsStorage e → is_movement_error e ≡ true
storage_movement e h = ground arith
