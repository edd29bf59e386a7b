-- ===== src/Inventory/Once.antt =====
-- Approving a document of the inventory module once: `approve` of the repositories of stock
-- transfers, adjustments, damages and returns, and `complete` of physical verifications
-- (backend/src/modules/inventory/infrastructure).
use vrindavan.Base.{ℕ, ◌≡◌, refl, Option}
use vrindavan.Exec.{ok, err}
use vrindavan.Db.{Db, Trx, Clock, document_not_draft}
use vrindavan.Inventory.Document.Laws.{approve_twice}
use vrindavan.Inventory.Transfer
use vrindavan.Inventory.Adjustment
use vrindavan.Inventory.Verification
use vrindavan.Inventory.Damage
use vrindavan.Inventory.Return

pub data Kind : Type 0 where
  transfer : Kind
  adjustment : Kind
  verification : Kind
  damage : Kind
  return_ : Kind

abbrev pub Made : Kind → Type 0
Made Kind.transfer = Transfer.StockTransfer
Made Kind.adjustment = Adjustment.StockAdjustment
Made Kind.verification = Verification.PhysicalVerification
Made Kind.damage = Damage.DamagedStock
Made Kind.return_ = Return.StockReturn

abbrev pub approve : (kind : Kind) → Clock → Option ℕ → ℕ → Trx (Made kind)
approve Kind.transfer clock by = Transfer.approve_transfer clock by
approve Kind.adjustment clock by = Adjustment.approve_adjustment clock by
approve Kind.verification clock by = Verification.complete_verification clock
approve Kind.damage clock by = Damage.approve_damage clock by
approve Kind.return_ clock by = Return.approve_return clock by

-- A stock transfer, adjustment, damage or return that was approved, or a physical verification that
-- was completed, is closed: approving or completing it again, at any time and by anyone, is refused
-- as not a draft, and writes nothing.
pub approved_once :
    (kind : Kind) (clock then : Clock) (by whom : Option ℕ) (id : ℕ) (s t : Db) (made : Made kind)
    → approve kind clock by id s ≡ (ok made, t)
    → approve kind then whom id t ≡ (err (document_not_draft id), t)
unfolding Transfer.approve_transfer Adjustment.approve_adjustment Verification.complete_verification
    Damage.approve_damage Return.approve_return
approved_once Kind.transfer clock then by whom =
    approve_twice Transfer.document Transfer.Approval.document-IsDocument (Transfer.post_line clock)
      (Transfer.complete clock by) (Transfer.Approval.post_line-OnlyStock clock) (λ h. refl)
      (λ h. refl) (Transfer.post_line then) (Transfer.complete then whom)
approved_once Kind.adjustment clock then by whom =
    approve_twice Adjustment.document Adjustment.Approval.document-IsDocument
      (Adjustment.post_line clock) (Adjustment.stamp_approved clock by)
      (Adjustment.Approval.post_line-OnlyStock clock) (λ h. refl) (λ h. refl)
      (Adjustment.post_line then) (Adjustment.stamp_approved then whom)
approved_once Kind.verification clock then by whom =
    approve_twice Verification.document Verification.Approval.document-IsDocument
      (Verification.post_line clock) (Verification.complete clock)
      (Verification.Approval.post_line-OnlyStock clock) (λ h. refl) (λ h. refl)
      (Verification.post_line then) (Verification.complete then)
approved_once Kind.damage clock then by whom =
    approve_twice Damage.document Damage.Approval.document-IsDocument (Damage.post_line clock)
      (Damage.stamp_approved clock by) (Damage.Approval.post_line-OnlyStock clock) (λ h. refl)
      (λ h. refl) (Damage.post_line then) (Damage.stamp_approved then whom)
approved_once Kind.return_ clock then by whom =
    approve_twice Return.document Return.Approval.document-IsDocument (Return.post_line clock)
      (Return.stamp_approved clock by) (Return.Approval.post_line-OnlyStock clock) (λ h. refl)
      (λ h. refl) (Return.post_line then) (Return.stamp_approved then whom)
