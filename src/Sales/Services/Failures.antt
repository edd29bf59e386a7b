-- ===== src/Sales/Services/Failures.antt =====
-- What DeliveryChallansService answers when a delivery fails.
use vrindavan.Base.{ℕ, ◌*◌, ◌≡◌, refl, true, Option}
use vrindavan.Exec.{err}
use vrindavan.Exec.Raises.{Raises, Raises-bind}
use vrindavan.Db.{Db, Error, Clock, DeliveryChallanRow, DeliveryChallanLineRow}
use vrindavan.Stock.Posting.{get_live_balance, cost_of}
use vrindavan.Stock.Refusal.{post_stock_movement-Raises}
use vrindavan.Trade.Fulfilment.Raises.{post_unrounded-Raises, fulfil-Raises, fulfil-atomic}
use vrindavan.Trade.Payment.Raises.{
  is_payment_error, create_with_allocations-Raises, create_with_allocations-atomic,
}
use vrindavan.Trade.Services.{answer_payment}
use vrindavan.Trade.Services.Failures.{is_refusal, answer_payment-IsRefusal}
use vrindavan.Inventory.Services.{HttpException, approve, answer_movement}
use vrindavan.Inventory.Services.Answers.{
  is_movement_error, is_answer, caught, answer_movement-IsAnswer, storage_movement,
}
use vrindavan.Sales.Challan
use vrindavan.Sales.Payment
use vrindavan.Sales.Services.{customer_payments_service, delivery_challans_service}

abbrev MovementError : Error → Type 0
MovementError e = is_movement_error e ≡ true

challan_line-Raises :
    (clock : Clock) (h : DeliveryChallanRow) (l : DeliveryChallanLineRow) (factor : ℕ)
    → Raises MovementError (Challan.post_line clock h l factor)
unfolding Challan.post_line
challan_line-Raises clock h l factor =
    Raises-bind MovementError (get_live_balance (Challan.line_dims h l)) _ (record { at = λ s. tt })
      λ b.
        post_unrounded-Raises MovementError (λ n a r. refl) clock
          (Challan.movement h l factor (cost_of b)) (l.quantity * factor)
          (post_stock_movement-Raises MovementError storage_movement (λ n a r. refl) clock
            (Challan.movement h l factor (cost_of b)))

-- When the service's delivery of a challan fails, the answer is 404, 409 or an error of the database,
-- and nothing has been written: no line is posted, and the order is as it was.
pub delivery_challans_service-fails :
    (clock : Clock) (by : Option ℕ) (id : ℕ) (s t : Db) (x : HttpException)
    → delivery_challans_service.approve_one clock by id s ≡ (err x, t)
    → (is_answer x ≡ true) × (t ≡ s)
unfolding delivery_challans_service approve Challan.deliver
delivery_challans_service-fails clock by id s t x =
    caught is_answer (Challan.deliver clock id) answer_movement is_movement_error
      (fulfil-Raises MovementError Challan.fulfils clock refl (challan_line-Raises clock) id refl
        refl)
      (fulfil-atomic Challan.fulfils clock id) answer_movement-IsAnswer s t x

-- When the service's recording of a payment fails, the answer is 400, or no current financial year or
-- an error of the database is thrown on, and nothing has been written: the allocations before the
-- refused one are undone with the number and the header of the payment.
pub customer_payments_service-fails :
    (clock : Clock) (props : Payment.CreateCustomerPaymentProps) (by : Option ℕ) (s t : Db)
    (x : HttpException)
    → customer_payments_service.create_one clock props by s ≡ (err x, t)
    → (is_refusal x ≡ true) × (t ≡ s)
unfolding customer_payments_service Payment.create_customer_payment
customer_payments_service-fails clock props by s t x =
    caught is_refusal (Payment.create_customer_payment clock props by) answer_payment
      is_payment_error
      (create_with_allocations-Raises Payment.billing clock props.customer_id props.amount
        (Payment.header_values clock props by) props.allocations)
      (create_with_allocations-atomic Payment.billing clock props.customer_id props.amount
        (Payment.header_values clock props by) props.allocations)
      answer_payment-IsRefusal s t x
