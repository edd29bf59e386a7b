-- ===== src/Inventory/System.antt =====
-- The inventory as a whole: every call that the services make of its repositories, and histories of
-- such calls (backend/src/modules/inventory/application/*.service.ts, and the job that runs
-- `fn_release_expired_reservations`). A call that throws ends there and the next one follows.
pub mod Drafts
pub mod Spares
use vrindavan.Base.{ℕ, Option, List, [], ◌∷◌}
use vrindavan.Db.{Db, Clock}
use vrindavan.Stock.Consistent.{IsConsistent}
use vrindavan.Inventory.Transfer
use vrindavan.Inventory.Adjustment
use vrindavan.Inventory.Verification
use vrindavan.Inventory.Damage
use vrindavan.Inventory.Return
use vrindavan.Inventory.OpeningStock
use vrindavan.Inventory.Reserved
use vrindavan.Inventory.Blocked

-- The calls that write; those that only read leave the database as it is.
pub data Call : Type 0 where
  create_transfer : Transfer.CreateStockTransferProps → Option ℕ → Call
  approve_transfer : Option ℕ → ℕ → Call
  delete_transfer : ℕ → Call
  create_adjustment : Adjustment.CreateStockAdjustmentProps → Option ℕ → Call
  approve_adjustment : Option ℕ → ℕ → Call
  delete_adjustment : ℕ → Call
  create_verification : Verification.CreatePhysicalVerificationProps → Option ℕ → Call
  complete_verification : ℕ → Call
  delete_verification : ℕ → Call
  create_damage : Damage.CreateDamagedStockProps → Option ℕ → Call
  approve_damage : Option ℕ → ℕ → Call
  delete_damage : ℕ → Call
  create_return : Return.CreateStockReturnProps → Option ℕ → Call
  approve_return : Option ℕ → ℕ → Call
  delete_return : ℕ → Call
  -- product, warehouse, quantity, unit cost
  post_opening_stock : ℕ → ℕ → ℕ → ℕ → Option ℕ → Call
  create_reserved : Reserved.CreateReservedStockProps → Option ℕ → Call
  release_reserved : ℕ → Call
  release_expired : Call
  create_blocked : Blocked.CreateBlockedStockProps → Option ℕ → Call
  release_blocked : ℕ → Option ℕ → Call

-- The database after a call, whether it returned or threw.
unfoldable pub step : Clock → Call → Db → Db
step clock (create_transfer props by) s = (Transfer.create_transfer clock props by s).1
step clock (approve_transfer by id) s = (Transfer.approve_transfer clock by id s).1
step clock (delete_transfer id) s = (Transfer.delete_transfer id s).1
step clock (create_adjustment props by) s = (Adjustment.create_adjustment clock props by s).1
step clock (approve_adjustment by id) s = (Adjustment.approve_adjustment clock by id s).1
step clock (delete_adjustment id) s = (Adjustment.delete_adjustment id s).1
step clock (create_verification props by) s = (Verification.create_verification clock props by s).1
step clock (complete_verification id) s = (Verification.complete_verification clock id s).1
step clock (delete_verification id) s = (Verification.delete_verification id s).1
step clock (create_damage props by) s = (Damage.create_damage clock props by s).1
step clock (approve_damage by id) s = (Damage.approve_damage clock by id s).1
step clock (delete_damage id) s = (Damage.delete_damage id s).1
step clock (create_return props by) s = (Return.create_return clock props by s).1
step clock (approve_return by id) s = (Return.approve_return clock by id s).1
step clock (delete_return id) s = (Return.delete_return id s).1
step clock (post_opening_stock product warehouse quantity cost by) s =
    (OpeningStock.post_opening_stock clock product warehouse quantity cost by s).1
step clock (create_reserved props by) s = (Reserved.create_reserved clock props by s).1
step clock (release_reserved id) s = (Reserved.release_reserved clock id s).1
step clock release_expired s = (Reserved.fn_release_expired_reservations clock s).1
step clock (create_blocked props by) s = (Blocked.create_blocked clock props by s).1
step clock (release_blocked id by) s = (Blocked.release_blocked clock id by s).1

abbrev pub History : Type 0
History = List (Clock × Call)

unfoldable pub run : History → Db → Db
unfolding step
run [] s = s
run ((clock, call) ∷ rest) s = run rest (step clock call s)

pub step-IsConsistent :
    (clock : Clock) (call : Call) (s : Db) → IsConsistent s → IsConsistent (step clock call s)
unfolding step
step-IsConsistent clock (create_transfer props by) =
    Drafts.create_transfer-IsConsistent clock props by
step-IsConsistent clock (approve_transfer by id) =
    Transfer.Approval.approve_transfer-IsConsistent clock by id
step-IsConsistent clock (delete_transfer id) = Drafts.delete_transfer-IsConsistent id
step-IsConsistent clock (create_adjustment props by) =
    Drafts.create_adjustment-IsConsistent clock props by
step-IsConsistent clock (approve_adjustment by id) =
    Adjustment.Approval.approve_adjustment-IsConsistent clock by id
step-IsConsistent clock (delete_adjustment id) = Drafts.delete_adjustment-IsConsistent id
step-IsConsistent clock (create_verification props by) =
    Drafts.create_verification-IsConsistent clock props by
step-IsConsistent clock (complete_verification id) =
    Verification.Approval.complete_verification-IsConsistent clock id
step-IsConsistent clock (delete_verification id) = Drafts.delete_verification-IsConsistent id
step-IsConsistent clock (create_damage props by) = Drafts.create_damage-IsConsistent clock props by
step-IsConsistent clock (approve_damage by id) =
    Damage.Approval.approve_damage-IsConsistent clock by id
step-IsConsistent clock (delete_damage id) = Drafts.delete_damage-IsConsistent id
step-IsConsistent clock (create_return props by) = Drafts.create_return-IsConsistent clock props by
step-IsConsistent clock (approve_return by id) =
    Return.Approval.approve_return-IsConsistent clock by id
step-IsConsistent clock (delete_return id) = Drafts.delete_return-IsConsistent id
step-IsConsistent clock (post_opening_stock product warehouse quantity cost by) =
    OpeningStock.Once.post_opening_stock-IsConsistent clock product warehouse quantity cost by
step-IsConsistent clock (create_reserved props by) =
    Reserved.Holds.create_reserved-IsConsistent clock props by
step-IsConsistent clock (release_reserved id) =
    Reserved.Holds.release_reserved-IsConsistent clock id
step-IsConsistent clock release_expired =
    Reserved.Holds.fn_release_expired_reservations-IsConsistent clock
step-IsConsistent clock (create_blocked props by) =
    Blocked.Holds.create_blocked-IsConsistent clock props by
step-IsConsistent clock (release_blocked id by) =
    Blocked.Holds.release_blocked-IsConsistent clock id by

-- After any history of calls, from a database whose stock tables are consistent, they are
-- consistent: the quantity on hand at every dimension is what the ledger adds up to, no stock has
-- two balance rows, and every balance covers what is reserved and blocked of it. This holds
-- whichever of the calls throw.
pub run-IsConsistent : (history : History) (s : Db) → IsConsistent s → IsConsistent (run history s)
unfolding run
run-IsConsistent [] s c = c
run-IsConsistent ((clock, call) ∷ rest) s c =
    run-IsConsistent rest (step clock call s) (step-IsConsistent clock call s c)
