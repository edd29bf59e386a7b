-- ===== src/Purchase/Services/Failures.antt =====
-- What GoodsReceivedNotesService answers when a completion fails.
use vrindavan.Base.{ℕ, ◌≡◌, refl, true, Option, arith}
use vrindavan.Exec.{err}
use vrindavan.Exec.Raises.{Raises}
use vrindavan.Db.{Db, Error, Clock, GoodsReceivedNoteRow, GrnLineRow}
use vrindavan.Stock.Refusal.{post_stock_movement-enough_raises}
use vrindavan.Trade.Fulfilment.Raises.{fulfil-Raises, fulfil-atomic}
use vrindavan.Trade.Payment.Raises.{
  is_payment_error, create_with_allocations-Raises, create_with_allocations-atomic,
}
use vrindavan.Trade.Services.{answer_payment}
use vrindavan.Trade.Services.Failures.{is_refusal, answer_payment-IsRefusal}
use vrindavan.Inventory.Services.{HttpException, approve, answer_document}
use vrindavan.Inventory.Services.Answers.{
  is_document_error, is_answer, caught, answer_document-IsAnswer, storage_document,
}
use vrindavan.Purchase.Grn
use vrindavan.Purchase.Payment
use vrindavan.Purchase.Services.{supplier_payments_service, goods_received_notes_service}

abbrev DocumentError : Error → Type 0
DocumentError e = is_document_error e ≡ true

-- Nothing goes out, so nothing is short.
grn_line-Raises :
    (clock : Clock) (h : GoodsReceivedNoteRow) (l : GrnLineRow) (factor : ℕ)
    → Raises DocumentError (Grn.post_line clock h l factor)
unfolding Grn.post_line Grn.movement
grn_line-Raises clock h l factor = record {
  at = λ s.
      post_stock_movement-enough_raises DocumentError storage_document clock
        (Grn.movement h l factor) s (omega arith);
}

-- When the service's completion of a goods received note fails, the answer is 404, 409 or an error of
-- the database, and nothing has been written: though the service does not catch
-- `InsufficientStockError`, none comes out.
pub goods_received_notes_service-fails :
    (clock : Clock) (by : Option ℕ) (id : ℕ) (s t : Db) (x : HttpException)
    → goods_received_notes_service.approve_one clock by id s ≡ (err x, t)
    → (is_answer x ≡ true) × (t ≡ s)
unfolding goods_received_notes_service approve Grn.complete_grn
goods_received_notes_service-fails clock by id s t x =
    caught is_answer (Grn.complete_grn clock id) answer_document is_document_error
      (fulfil-Raises DocumentError Grn.fulfils clock refl (grn_line-Raises clock) id refl refl)
      (fulfil-atomic Grn.fulfils clock id) answer_document-IsAnswer s t x

-- When the service's recording of a payment fails, the answer is 400, or no current financial year or
-- an error of the database is thrown on, and nothing has been written: the allocations before the
-- refused one are undone with the number and the header of the payment.
pub supplier_payments_service-fails :
    (clock : Clock) (props : Payment.CreateSupplierPaymentProps) (by : Option ℕ) (s t : Db)
    (x : HttpException)
    → supplier_payments_service.create_one clock props by s ≡ (err x, t)
    → (is_refusal x ≡ true) × (t ≡ s)
unfolding supplier_payments_service Payment.create_supplier_payment
supplier_payments_service-fails clock props by s t x =
    caught is_refusal (Payment.create_supplier_payment clock props by) answer_payment
      is_payment_error
      (create_with_allocations-Raises Payment.billing clock props.supplier_id props.amount
        (Payment.header_values clock props by) props.allocations)
      (create_with_allocations-atomic Payment.billing clock props.supplier_id props.amount
        (Payment.header_values clock props by) props.allocations)
      answer_payment-IsRefusal s t x
