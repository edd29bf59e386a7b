-- ===== src/Db/Documents.antt =====
-- The header and line rows of the five inventory documents
-- (backend/src/modules/inventory/domain/*.entity.ts, and the tables behind them).
use vrindavan.Base.{ℕ, String, Option, List}

pub data TransferStatus : Type 0 where
  draft in_transit completed cancelled : TransferStatus

pub record TransferRow : Type 0 where
  pub id : ℕ
  pub transfer_number : List ℕ
  pub transfer_date : ℕ
  pub from_warehouse_id : ℕ
  pub to_warehouse_id : ℕ
  pub status : TransferStatus
  pub remarks : Option String
  pub created_by : Option ℕ
  pub approved_by : Option ℕ
  pub approved_at : Option ℕ
  pub created_at : ℕ
  pub updated_at : ℕ

pub record TransferLineRow : Type 0 where
  pub id : ℕ
  pub transfer_id : ℕ
  pub product_id : ℕ
  pub batch_id : Option ℕ
  pub from_rack_id : Option ℕ
  pub from_location_id : Option ℕ
  pub to_rack_id : Option ℕ
  pub to_location_id : Option ℕ
  pub quantity : ℕ

-- The statuses of adjustments, damage entries and returns.
pub data ApprovalStatus : Type 0 where
  draft approved cancelled : ApprovalStatus

pub record AdjustmentRow : Type 0 where
  pub id : ℕ
  pub adjustment_number : List ℕ
  pub adjustment_date : ℕ
  pub warehouse_id : ℕ
  pub reason : Option String
  pub status : ApprovalStatus
  pub created_by : Option ℕ
  pub approved_by : Option ℕ
  pub approved_at : Option ℕ
  pub created_at : ℕ
  pub updated_at : ℕ

pub record AdjustmentLineRow : Type 0 where
  pub id : ℕ
  pub adjustment_id : ℕ
  pub product_id : ℕ
  pub batch_id : Option ℕ
  pub rack_id : Option ℕ
  pub location_id : Option ℕ
  pub system_quantity : ℕ
  pub adjusted_quantity : ℕ
  pub remarks : Option String

pub record DamageRow : Type 0 where
  pub id : ℕ
  pub damage_number : List ℕ
  pub damage_date : ℕ
  pub warehouse_id : ℕ
  pub reason : Option String
  pub status : ApprovalStatus
  pub created_by : Option ℕ
  pub approved_by : Option ℕ
  pub approved_at : Option ℕ
  pub created_at : ℕ
  pub updated_at : ℕ

pub record DamageLineRow : Type 0 where
  pub id : ℕ
  pub damage_id : ℕ
  pub product_id : ℕ
  pub batch_id : Option ℕ
  pub rack_id : Option ℕ
  pub location_id : Option ℕ
  pub quantity : ℕ
  pub remarks : Option String

pub record ReturnRow : Type 0 where
  pub id : ℕ
  pub return_number : List ℕ
  pub return_date : ℕ
  pub warehouse_id : ℕ
  pub reason : Option String
  pub status : ApprovalStatus
  pub created_by : Option ℕ
  pub approved_by : Option ℕ
  pub approved_at : Option ℕ
  pub created_at : ℕ
  pub updated_at : ℕ

pub record ReturnLineRow : Type 0 where
  pub id : ℕ
  pub return_id : ℕ
  pub product_id : ℕ
  pub batch_id : Option ℕ
  pub rack_id : Option ℕ
  pub location_id : Option ℕ
  pub quantity : ℕ
  pub remarks : Option String

pub data VerificationStatus : Type 0 where
  draft in_progress completed cancelled : VerificationStatus

pub record VerificationRow : Type 0 where
  pub id : ℕ
  pub verification_number : List ℕ
  pub verification_date : ℕ
  pub warehouse_id : ℕ
  pub status : VerificationStatus
  pub created_by : Option ℕ
  pub completed_at : Option ℕ
  pub created_at : ℕ
  pub updated_at : ℕ

-- The generated column `difference` is `counted_quantity - system_quantity`, and is not stored.
pub record VerificationLineRow : Type 0 where
  pub id : ℕ
  pub verification_id : ℕ
  pub product_id : ℕ
  pub batch_id : Option ℕ
  pub rack_id : Option ℕ
  pub location_id : Option ℕ
  pub system_quantity : ℕ
  pub counted_quantity : ℕ
  pub remarks : Option String
