-- ===== src/Inventory/System/Spares.antt =====
-- What the calls of the inventory leave alone: the tables of sales and purchase.
use vrindavan.Base.{refl, arith, select_where, length}
use vrindavan.Exec.Within.{
  Within, Within-bind, Within-then, Within-pure, Within-gets, Within-throw_if, Within-for_each,
  transaction-holds,
}
use vrindavan.Db.{Db, Clock, SalesDb, PurchaseDb, ReservedStatus, opening_stock_already_posted}
use vrindavan.Tables.{reserved_stock}
use vrindavan.Stock.Posting.{PostMovementInput, post_stock_movement}
use vrindavan.Inventory.Document.Spares.{
  Spares, Spares-preorder, IsBlind, updated_rows-Spares, post_stock_movement-Spares,
  create_document-Spares, approve_document-Spares, delete_document-Spares,
}
use vrindavan.Inventory.Transfer
use vrindavan.Inventory.Adjustment
use vrindavan.Inventory.Verification
use vrindavan.Inventory.Damage
use vrindavan.Inventory.Return
use vrindavan.Inventory.OpeningStock
use vrindavan.Inventory.Reserved
use vrindavan.Inventory.Blocked
use vrindavan.Inventory.System.{
  Call, step, create_transfer, approve_transfer, delete_transfer, create_adjustment,
  approve_adjustment, delete_adjustment, create_verification, complete_verification,
  delete_verification, create_damage, approve_damage, delete_damage, create_return, approve_return,
  delete_return, post_opening_stock, create_reserved, release_reserved, release_expired,
  create_blocked, release_blocked,
}

-- The tables of the two modules that trade.
abbrev pub trade : Db → SalesDb × PurchaseDb
trade db = (db.sales, db.purchase)

abbrev trade-IsBlind : IsBlind trade
trade-IsBlind = record { draws = λ s. refl; numbers = λ s t. refl }

posted-Spares :
    (clock : Clock) (input : PostMovementInput)
    → Within (Spares trade) (post_stock_movement clock input)
posted-Spares = post_stock_movement-Spares trade (λ s t. refl)

release_expired-Spares : (clock : Clock) → Within (Spares trade) (Reserved.release_expired clock)
unfolding Reserved.release_expired
release_expired-Spares clock =
    let K = Spares-preorder trade in
    Within-bind K _ _
      (Within-gets K (λ db. select_where (Reserved.is_overdue clock) db.reserved_stock))
      λ overdue.
        Within-then K _ _
          (updated_rows-Spares trade reserved_stock (λ xs db. (refl, refl))
            (Reserved.is_overdue clock) (Reserved.end_as ReservedStatus.expired clock))
          (Within-then K _ _
            (Within-for_each K overdue Reserved.trg_reserved_ended
              (λ r. unfold Reserved.trg_reserved_ended in record { at = λ s. (refl, omega arith) }))
            (Within-pure K (length overdue)))

pub step-Spares : (clock : Clock) (call : Call) (s : Db) → Spares trade s (step clock call s)
unfolding step Transfer.create_transfer Transfer.insert_line Transfer.approve_transfer
    Transfer.delete_transfer Adjustment.create_adjustment Adjustment.insert_line
    Adjustment.approve_adjustment Adjustment.delete_adjustment Verification.create_verification
    Verification.insert_line Verification.complete_verification Verification.delete_verification
    Damage.create_damage Damage.insert_line Damage.approve_damage Damage.delete_damage
    Return.create_return Return.insert_line Return.approve_return Return.delete_return
    OpeningStock.post_opening_stock OpeningStock.post_unposted Reserved.create_reserved
    Reserved.insert_reserved Reserved.trg_reserved_inserted Reserved.release_reserved
    Reserved.trg_reserved_ended Reserved.fn_release_expired_reservations Blocked.create_blocked
    Blocked.insert_blocked Blocked.trg_blocked_inserted Blocked.release_blocked
    Blocked.trg_blocked_ended
step-Spares clock (create_transfer props by) =
    create_document-Spares trade trade-IsBlind Transfer.document (λ xs db. (refl, refl)) _
      props.lines Transfer.insert_line (λ h p. record { at = λ s. (refl, omega arith) })
step-Spares clock (approve_transfer by id) =
    approve_document-Spares trade trade-IsBlind Transfer.document (λ xs db. (refl, refl))
      (Transfer.post_line clock) (Transfer.complete clock by)
      (λ h l.
        Transfer.Approval.post_line-Within (Spares-preorder trade).trans clock h l
          (λ cost. posted-Spares clock _) (λ cost. posted-Spares clock _))
      id
step-Spares clock (delete_transfer id) =
    delete_document-Spares trade Transfer.document (λ xs db. (refl, refl)) (λ xs db. (refl, refl))
      id
step-Spares clock (create_adjustment props by) =
    create_document-Spares trade trade-IsBlind Adjustment.document (λ xs db. (refl, refl)) _
      props.lines Adjustment.insert_line (λ h p. record { at = λ s. (refl, omega arith) })
step-Spares clock (approve_adjustment by id) =
    approve_document-Spares trade trade-IsBlind Adjustment.document (λ xs db. (refl, refl))
      (Adjustment.post_line clock) (Adjustment.stamp_approved clock by)
      (λ h l.
        Adjustment.Approval.post_line-Within (Spares trade) clock h l
          (λ s met. (Spares-preorder trade).rfl s) (λ s cost. (posted-Spares clock _).at s))
      id
step-Spares clock (delete_adjustment id) =
    delete_document-Spares trade Adjustment.document (λ xs db. (refl, refl)) (λ xs db. (refl, refl))
      id
step-Spares clock (create_verification props by) =
    create_document-Spares trade trade-IsBlind Verification.document (λ xs db. (refl, refl)) _
      props.lines Verification.insert_line (λ h p. record { at = λ s. (refl, omega arith) })
step-Spares clock (complete_verification id) =
    approve_document-Spares trade trade-IsBlind Verification.document (λ xs db. (refl, refl))
      (Verification.post_line clock) (Verification.complete clock)
      (λ h l.
        Verification.Approval.post_line-Within (Spares trade) clock h l
          (λ s met. (Spares-preorder trade).rfl s) (λ s cost. (posted-Spares clock _).at s))
      id
step-Spares clock (delete_verification id) =
    delete_document-Spares trade Verification.document (λ xs db. (refl, refl))
      (λ xs db. (refl, refl)) id
step-Spares clock (create_damage props by) =
    create_document-Spares trade trade-IsBlind Damage.document (λ xs db. (refl, refl)) _ props.lines
      Damage.insert_line (λ h p. record { at = λ s. (refl, omega arith) })
step-Spares clock (approve_damage by id) =
    approve_document-Spares trade trade-IsBlind Damage.document (λ xs db. (refl, refl))
      (Damage.post_line clock) (Damage.stamp_approved clock by)
      (λ h l.
        Damage.Approval.post_line-Within (Spares trade) clock h l (λ cost. posted-Spares clock _))
      id
step-Spares clock (delete_damage id) =
    delete_document-Spares trade Damage.document (λ xs db. (refl, refl)) (λ xs db. (refl, refl)) id
step-Spares clock (create_return props by) =
    create_document-Spares trade trade-IsBlind Return.document (λ xs db. (refl, refl)) _ props.lines
      Return.insert_line (λ h p. record { at = λ s. (refl, omega arith) })
step-Spares clock (approve_return by id) =
    approve_document-Spares trade trade-IsBlind Return.document (λ xs db. (refl, refl))
      (Return.post_line clock) (Return.stamp_approved clock by)
      (λ h l.
        Return.Approval.post_line-Within (Spares trade) clock h l (λ cost. posted-Spares clock _))
      id
step-Spares clock (delete_return id) =
    delete_document-Spares trade Return.document (λ xs db. (refl, refl)) (λ xs db. (refl, refl)) id
step-Spares clock (post_opening_stock product warehouse quantity cost by) = λ s.
    let K = Spares-preorder trade in
    transaction-holds K _ s (
      Within-bind K _ _ (Within-gets K (OpeningStock.has_opening_stock_been_posted product))
        λ posted.
          Within-then K _ _ (Within-throw_if K posted (opening_stock_already_posted product)) (
            posted-Spares clock (OpeningStock.opening_movement product warehouse quantity cost by)))
step-Spares clock (create_reserved props by) = λ s. ground arith
step-Spares clock (release_reserved id) = λ s. ground arith
step-Spares clock release_expired =
    λ s. transaction-holds (Spares-preorder trade) _ s (release_expired-Spares clock)
step-Spares clock (create_blocked props by) = λ s. ground arith
step-Spares clock (release_blocked id by) = λ s. ground arith
