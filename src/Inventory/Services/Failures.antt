-- ===== src/Inventory/Services/Failures.antt =====
-- What StockTransfersService, StockAdjustmentsService, PhysicalVerificationsService,
-- DamagedStockService and StockReturnsService answer when an approval fails.
use vrindavan.Base.{ℕ, ◌≡◌, refl, true, Option, arith, inl, inr, Bool-cases, ◌==◌}
use vrindavan.Exec.{err}
use vrindavan.Exec.Raises.{Raised, Raises, Raises-then}
use vrindavan.Db.{
  Db, Error, Clock, AdjustmentRow, AdjustmentLineRow, VerificationRow, VerificationLineRow,
  TransferRow, TransferLineRow, DamageRow, DamageLineRow, ReturnRow, ReturnLineRow,
}
use vrindavan.Stock.Guard.{quantity_of-eq}
use vrindavan.Stock.Posting.{get_live_balance, live_balance_at, quantity_of, post_stock_movement}
use vrindavan.Stock.Refusal.{post_stock_movement-Raises, post_stock_movement-enough_raises}
use vrindavan.Inventory.Document.Raises.{approve_document-Raises, approve_document-atomic}
use vrindavan.Inventory.Services.{HttpException, approve, answer_document, answer_movement}
use vrindavan.Inventory.Services.Documents.{
  stock_transfers_service, stock_adjustments_service, physical_verifications_service,
  damaged_stock_service, stock_returns_service,
}
use vrindavan.Inventory.Services.Answers.{
  is_document_error, is_movement_error, is_answer, caught, answer_document-IsAnswer,
  answer_movement-IsAnswer, storage_document, storage_movement,
}
use vrindavan.Inventory.Transfer
use vrindavan.Inventory.Adjustment
use vrindavan.Inventory.Verification
use vrindavan.Inventory.Damage
use vrindavan.Inventory.Return

abbrev DocumentError : Error → Type 0
DocumentError e = is_document_error e ≡ true

abbrev MovementError : Error → Type 0
MovementError e = is_movement_error e ≡ true

transfer_line-Raises :
    (clock : Clock) (h : TransferRow) (l : TransferLineRow)
    → Raises MovementError (Transfer.post_line clock h l)
unfolding Transfer.post_line get_live_balance
transfer_line-Raises clock h l = record {
  at = λ s.
      (Raises-then MovementError (post_stock_movement clock (Transfer.movement_out h l _)) _
          (post_stock_movement-Raises MovementError storage_movement (λ n a r. refl) clock _)
          (post_stock_movement-Raises MovementError storage_movement (λ n a r. refl) clock
            (Transfer.movement_in h l _))).at
        s;
}

damage_line-Raises :
    (clock : Clock) (h : DamageRow) (l : DamageLineRow)
    → Raises MovementError (Damage.post_line clock h l)
unfolding Damage.post_line get_live_balance
damage_line-Raises clock h l = record {
  at =
      λ s. (post_stock_movement-Raises MovementError storage_movement (λ n a r. refl) clock _).at s;
}

return_line-Raises :
    (clock : Clock) (h : ReturnRow) (l : ReturnLineRow)
    → Raises DocumentError (Return.post_line clock h l)
unfolding Return.post_line get_live_balance Return.movement
return_line-Raises clock h l = record {
  at =
      λ s. post_stock_movement-enough_raises DocumentError storage_document clock _ s (omega arith);
}

adjustment_line-Raises :
    (clock : Clock) (h : AdjustmentRow) (l : AdjustmentLineRow)
    → Raises DocumentError (Adjustment.post_line clock h l)
unfolding Adjustment.post_line Adjustment.movement
adjustment_line-Raises clock h l = record { at = run }
  where
    run : (s : Db) → Raised DocumentError (Adjustment.post_line clock h l s)
    run s =
        elim (Bool-cases (
          l.adjusted_quantity
          == quantity_of (live_balance_at (Adjustment.line_dims h l) s.stock_balances))) [
            | inl met ↦ rw met tt
            | inr unmet ↦ rw unmet (
                post_stock_movement-enough_raises DocumentError storage_document clock _ s
                  (ground (arith, quantity_of-eq (Adjustment.line_dims h l) s.stock_balances)))
          ]

verification_line-Raises :
    (clock : Clock) (h : VerificationRow) (l : VerificationLineRow)
    → Raises DocumentError (Verification.post_line clock h l)
unfolding Verification.post_line Verification.movement
verification_line-Raises clock h l = record { at = run }
  where
    run : (s : Db) → Raised DocumentError (Verification.post_line clock h l s)
    run s =
        elim (Bool-cases (
          l.counted_quantity
          == quantity_of (live_balance_at (Verification.line_dims h l) s.stock_balances))) [
            | inl met ↦ rw met tt
            | inr unmet ↦ rw unmet (
                post_stock_movement-enough_raises DocumentError storage_document clock _ s
                  (ground (arith, quantity_of-eq (Verification.line_dims h l) s.stock_balances)))
          ]

-- When the service's approval of a stock transfer fails, the answer is 404, 409 or an error of the database,
-- and nothing has been written.
pub stock_transfers_service-fails :
    (clock : Clock) (by : Option ℕ) (id : ℕ) (s t : Db) (x : HttpException)
    → stock_transfers_service.approve_one clock by id s ≡ (err x, t)
    → (is_answer x ≡ true) × (t ≡ s)
unfolding stock_transfers_service approve Transfer.approve_transfer
stock_transfers_service-fails clock by id s t x =
    caught is_answer (Transfer.approve_transfer clock by id) answer_movement is_movement_error
      (approve_document-Raises Transfer.document (Transfer.post_line clock)
        (Transfer.complete clock by) MovementError id refl refl refl (transfer_line-Raises clock))
      (approve_document-atomic Transfer.document (Transfer.post_line clock)
        (Transfer.complete clock by) id)
      answer_movement-IsAnswer s t x

-- When the service's approval of a damaged stock fails, the answer is 404, 409 or an error of the database,
-- and nothing has been written.
pub damaged_stock_service-fails :
    (clock : Clock) (by : Option ℕ) (id : ℕ) (s t : Db) (x : HttpException)
    → damaged_stock_service.approve_one clock by id s ≡ (err x, t)
    → (is_answer x ≡ true) × (t ≡ s)
unfolding damaged_stock_service approve Damage.approve_damage
damaged_stock_service-fails clock by id s t x =
    caught is_answer (Damage.approve_damage clock by id) answer_movement is_movement_error
      (approve_document-Raises Damage.document (Damage.post_line clock)
        (Damage.stamp_approved clock by) MovementError id refl refl refl (damage_line-Raises clock))
      (approve_document-atomic Damage.document (Damage.post_line clock)
        (Damage.stamp_approved clock by) id)
      answer_movement-IsAnswer s t x

-- When the service's approval of a stock adjustment fails, the answer is 404, 409 or an error of the database,
-- and nothing has been written: though the service does not catch `InsufficientStockError`, none
-- comes out.
pub stock_adjustments_service-fails :
    (clock : Clock) (by : Option ℕ) (id : ℕ) (s t : Db) (x : HttpException)
    → stock_adjustments_service.approve_one clock by id s ≡ (err x, t)
    → (is_answer x ≡ true) × (t ≡ s)
unfolding stock_adjustments_service approve Adjustment.approve_adjustment
stock_adjustments_service-fails clock by id s t x =
    caught is_answer (Adjustment.approve_adjustment clock by id) answer_document is_document_error
      (approve_document-Raises Adjustment.document (Adjustment.post_line clock)
        (Adjustment.stamp_approved clock by) DocumentError id refl refl refl
        (adjustment_line-Raises clock))
      (approve_document-atomic Adjustment.document (Adjustment.post_line clock)
        (Adjustment.stamp_approved clock by) id)
      answer_document-IsAnswer s t x

-- When the service's approval of a physical verification fails, the answer is 404, 409 or an error of the database,
-- and nothing has been written: though the service does not catch `InsufficientStockError`, none
-- comes out.
pub physical_verifications_service-fails :
    (clock : Clock) (by : Option ℕ) (id : ℕ) (s t : Db) (x : HttpException)
    → physical_verifications_service.approve_one clock by id s ≡ (err x, t)
    → (is_answer x ≡ true) × (t ≡ s)
unfolding physical_verifications_service approve Verification.complete_verification
physical_verifications_service-fails clock by id s t x =
    caught is_answer (Verification.complete_verification clock id) answer_document is_document_error
      (approve_document-Raises Verification.document (Verification.post_line clock)
        (Verification.complete clock) DocumentError id refl refl refl
        (verification_line-Raises clock))
      (approve_document-atomic Verification.document (Verification.post_line clock)
        (Verification.complete clock) id)
      answer_document-IsAnswer s t x

-- When the service's approval of a stock return fails, the answer is 404, 409 or an error of the database,
-- and nothing has been written: though the service does not catch `InsufficientStockError`, none
-- comes out.
pub stock_returns_service-fails :
    (clock : Clock) (by : Option ℕ) (id : ℕ) (s t : Db) (x : HttpException)
    → stock_returns_service.approve_one clock by id s ≡ (err x, t)
    → (is_answer x ≡ true) × (t ≡ s)
unfolding stock_returns_service approve Return.approve_return
stock_returns_service-fails clock by id s t x =
    caught is_answer (Return.approve_return clock by id) answer_document is_document_error
      (approve_document-Raises Return.document (Return.post_line clock)
        (Return.stamp_approved clock by) DocumentError id refl refl refl (return_line-Raises clock))
      (approve_document-atomic Return.document (Return.post_line clock)
        (Return.stamp_approved clock by) id)
      answer_document-IsAnswer s t x
