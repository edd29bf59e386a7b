-- ===== src/Inventory/Verification.antt =====
-- PhysicalVerification documents (backend/src/modules/inventory: domain/physical-verification.entity.ts,
-- infrastructure/physical-verification.kysely-repository.ts).
pub mod Approval
pub mod Created
pub mod Returns
use vrindavan.Base.{
  ℕ, ◌-◌, String, Bool, true, false, Option, none, some, List, get_or, ltb, ◌==◌, if◌then◌else◌,
}
use vrindavan.Exec.{◌>>=◌, pure}
use vrindavan.Db.{
  DocumentType, ReferenceType, MovementType, Trx, Clock, Dims, VerificationRow, VerificationLineRow,
  VerificationStatus,
}
use vrindavan.Tables.{physical_verifications, physical_verification_lines}
use vrindavan.Stock.Posting.{
  PostMovementInput, get_live_balance, quantity_of, cost_of, post_stock_movement,
}
use vrindavan.Inventory.Document.{
  Document, Loaded, find_all, find_document, insert_row, create_document, approve_document,
  delete_document,
}

pub record CreatePhysicalVerificationLineProps : Type 0 where
  pub product_id : ℕ
  pub batch_id : Option ℕ
  pub rack_id : Option ℕ
  pub location_id : Option ℕ
  pub counted_quantity : ℕ
  pub remarks : Option String

pub record CreatePhysicalVerificationProps : Type 0 where
  pub warehouse_id : ℕ
  pub verification_date : Option ℕ
  pub lines : List CreatePhysicalVerificationLineProps

abbrev pub is_draft : VerificationStatus → Bool
is_draft VerificationStatus.draft = true
is_draft VerificationStatus.in_progress = false
is_draft VerificationStatus.completed = false
is_draft VerificationStatus.cancelled = false

abbrev pub document : Document VerificationRow VerificationLineRow
document = record {
  headers = physical_verifications;
  line_rows = physical_verification_lines;
  parent_of = λ l. l.verification_id;
  is_draft = λ h. is_draft h.status;
  date_of = λ h. h.verification_date;
  document_type = DocumentType.physical_verification;
  prefix = "PV";
}

abbrev pub PhysicalVerification : Type 0
PhysicalVerification = Loaded VerificationRow VerificationLineRow

unfoldable pub find_verifications : Trx (List PhysicalVerification)
unfolding find_all
find_verifications = find_all document

unfoldable pub find_verification : ℕ → Trx (Option PhysicalVerification)
unfolding find_document
find_verification = find_document document

unfoldable pub props_dims : ℕ → CreatePhysicalVerificationLineProps → Dims
props_dims warehouse_id line = record {
  product_id = line.product_id;
  warehouse_id = warehouse_id;
  rack_id = line.rack_id;
  location_id = line.location_id;
  batch_id = line.batch_id;
}

unfoldable pub line_values :
    VerificationRow → CreatePhysicalVerificationLineProps → ℕ → ℕ → VerificationLineRow
line_values header line system_quantity id = record {
  id = id;
  verification_id = header.id;
  product_id = line.product_id;
  batch_id = line.batch_id;
  rack_id = line.rack_id;
  location_id = line.location_id;
  system_quantity = system_quantity;
  counted_quantity = line.counted_quantity;
  remarks = line.remarks;
}

-- A line records the quantity on hand when the draft was made.
unfoldable pub insert_line :
    VerificationRow → CreatePhysicalVerificationLineProps → Trx VerificationLineRow
unfolding get_live_balance line_values props_dims
insert_line header line = do
  live_balance ← get_live_balance (props_dims header.warehouse_id line)
  insert_row document physical_verification_lines
      (line_values header line (quantity_of live_balance))

unfoldable pub header_values :
    Clock → CreatePhysicalVerificationProps → Option ℕ → List ℕ → ℕ → VerificationRow
header_values clock props created_by number id = record {
  id = id;
  verification_number = number;
  verification_date = get_or props.verification_date clock.today;
  warehouse_id = props.warehouse_id;
  status = VerificationStatus.draft;
  created_by = created_by;
  completed_at = none;
  created_at = clock.now;
  updated_at = clock.now;
}

unfoldable pub create_verification :
    Clock → CreatePhysicalVerificationProps → Option ℕ → Trx PhysicalVerification
unfolding create_document header_values insert_line
create_verification clock props created_by =
    create_document document (header_values clock props created_by) props.lines insert_line

unfoldable pub line_dims : VerificationRow → VerificationLineRow → Dims
line_dims header line = record {
  product_id = line.product_id;
  warehouse_id = header.warehouse_id;
  rack_id = line.rack_id;
  location_id = line.location_id;
  batch_id = line.batch_id;
}

-- The signed difference `diff` is `target - live`: what comes in where it is positive, what goes
-- out where it is negative.
unfoldable pub movement : VerificationRow → VerificationLineRow → ℕ → ℕ → PostMovementInput
unfolding line_dims
movement header line live unit_cost = record {
  dims = line_dims header line;
  movement_type =
      if ltb live line.counted_quantity
      then MovementType.verification_adjustment_in
      else MovementType.verification_adjustment_out;
  qty_in = if ltb live line.counted_quantity then some (line.counted_quantity - live) else none;
  qty_out = if ltb line.counted_quantity live then some (live - line.counted_quantity) else none;
  unit_cost = some unit_cost;
  reference_type = ReferenceType.physical_verification;
  reference_id = header.id;
  reference_line_id = some line.id;
  remarks = none;
  created_by = none;
}

-- A line whose target is already met posts nothing (`if (diff === 0) continue`).
unfoldable pub post_line : Clock → VerificationRow → VerificationLineRow → Trx (Unit {0})
unfolding movement get_live_balance
post_line clock header line = do
  live_balance ← get_live_balance (line_dims header line)
  let live = quantity_of live_balance
  if line.counted_quantity == live
      then pure tt
      else post_stock_movement clock (movement header line live (cost_of live_balance))

unfoldable pub complete : Clock → VerificationRow → VerificationRow
complete clock h = record h {
  status = VerificationStatus.completed;
  completed_at = some clock.now;
  updated_at = clock.now;
}

unfoldable pub complete_verification : Clock → ℕ → Trx PhysicalVerification
unfolding approve_document post_line complete
complete_verification clock = approve_document document (post_line clock) (complete clock)

unfoldable pub delete_verification : ℕ → Trx Bool
unfolding delete_document
delete_verification = delete_document document
