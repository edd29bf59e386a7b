-- ===== src/Inventory/System/Drafts.antt =====
-- Drafts of the five documents keep the invariant of the stock tables: what is made
-- (`createWithLines`) and what is deleted (`delete`).
use vrindavan.Base.{arith, ℕ, Option, refl}
use vrindavan.Db.{Db, Clock}
use vrindavan.Stock.Consistent.{IsConsistent}
use vrindavan.Inventory.Document.Draft.{create_document-IsConsistent, delete_document-IsConsistent}
use vrindavan.Inventory.Transfer
use vrindavan.Inventory.Adjustment
use vrindavan.Inventory.Verification
use vrindavan.Inventory.Damage
use vrindavan.Inventory.Return

pub create_transfer-IsConsistent :
    (clock : Clock) (props : Transfer.CreateStockTransferProps) (by : Option ℕ) (s : Db)
    → IsConsistent s
    → IsConsistent (Transfer.create_transfer clock props by s).1
unfolding Transfer.create_transfer Transfer.insert_line
create_transfer-IsConsistent clock props by =
    create_document-IsConsistent Transfer.document (λ xs db. (refl, refl))
      (Transfer.header_values clock props by) props.lines Transfer.insert_line
      (λ header line. record { at = λ s. (refl, omega arith) })

pub delete_transfer-IsConsistent :
    (id : ℕ) (s : Db) → IsConsistent s → IsConsistent (Transfer.delete_transfer id s).1
unfolding Transfer.delete_transfer
delete_transfer-IsConsistent =
    delete_document-IsConsistent Transfer.document (λ xs db. (refl, refl)) (λ xs db. (refl, refl))

pub create_adjustment-IsConsistent :
    (clock : Clock) (props : Adjustment.CreateStockAdjustmentProps) (by : Option ℕ) (s : Db)
    → IsConsistent s
    → IsConsistent (Adjustment.create_adjustment clock props by s).1
unfolding Adjustment.create_adjustment Adjustment.insert_line
create_adjustment-IsConsistent clock props by =
    create_document-IsConsistent Adjustment.document (λ xs db. (refl, refl))
      (Adjustment.header_values clock props by) props.lines Adjustment.insert_line
      (λ header line. record { at = λ s. (refl, omega arith) })

pub delete_adjustment-IsConsistent :
    (id : ℕ) (s : Db) → IsConsistent s → IsConsistent (Adjustment.delete_adjustment id s).1
unfolding Adjustment.delete_adjustment
delete_adjustment-IsConsistent =
    delete_document-IsConsistent Adjustment.document (λ xs db. (refl, refl)) (λ xs db. (refl, refl))

pub create_verification-IsConsistent :
    (clock : Clock) (props : Verification.CreatePhysicalVerificationProps) (by : Option ℕ) (s : Db)
    → IsConsistent s
    → IsConsistent (Verification.create_verification clock props by s).1
unfolding Verification.create_verification Verification.insert_line
create_verification-IsConsistent clock props by =
    create_document-IsConsistent Verification.document (λ xs db. (refl, refl))
      (Verification.header_values clock props by) props.lines Verification.insert_line
      (λ header line. record { at = λ s. (refl, omega arith) })

pub delete_verification-IsConsistent :
    (id : ℕ) (s : Db) → IsConsistent s → IsConsistent (Verification.delete_verification id s).1
unfolding Verification.delete_verification
delete_verification-IsConsistent =
    delete_document-IsConsistent Verification.document (λ xs db. (refl, refl))
      (λ xs db. (refl, refl))

pub create_damage-IsConsistent :
    (clock : Clock) (props : Damage.CreateDamagedStockProps) (by : Option ℕ) (s : Db)
    → IsConsistent s
    → IsConsistent (Damage.create_damage clock props by s).1
unfolding Damage.create_damage Damage.insert_line
create_damage-IsConsistent clock props by =
    create_document-IsConsistent Damage.document (λ xs db. (refl, refl))
      (Damage.header_values clock props by) props.lines Damage.insert_line
      (λ header line. record { at = λ s. (refl, omega arith) })

pub delete_damage-IsConsistent :
    (id : ℕ) (s : Db) → IsConsistent s → IsConsistent (Damage.delete_damage id s).1
unfolding Damage.delete_damage
delete_damage-IsConsistent =
    delete_document-IsConsistent Damage.document (λ xs db. (refl, refl)) (λ xs db. (refl, refl))

pub create_return-IsConsistent :
    (clock : Clock) (props : Return.CreateStockReturnProps) (by : Option ℕ) (s : Db)
    → IsConsistent s
    → IsConsistent (Return.create_return clock props by s).1
unfolding Return.create_return Return.insert_line
create_return-IsConsistent clock props by =
    create_document-IsConsistent Return.document (λ xs db. (refl, refl))
      (Return.header_values clock props by) props.lines Return.insert_line
      (λ header line. record { at = λ s. (refl, omega arith) })

pub delete_return-IsConsistent :
    (id : ℕ) (s : Db) → IsConsistent s → IsConsistent (Return.delete_return id s).1
unfolding Return.delete_return
delete_return-IsConsistent =
    delete_document-IsConsistent Return.document (λ xs db. (refl, refl)) (λ xs db. (refl, refl))
