-- ===== src/Purchase/Return.antt =====
-- PurchaseReturn documents (backend/src/modules/purchase: domain/purchase-return.entity.ts,
-- infrastructure/purchase-return.kysely-repository.ts).
use vrindavan.Base.{map, ℕ, ◌*◌, String, Bool, true, false, Option, none, some, List, get_or}
use vrindavan.Exec.{◌>>=◌}
use vrindavan.Db.{
  DocumentType, MovementType, ReferenceType, Trx, Clock, Dims, PurchaseReturnRow,
  PurchaseReturnLineRow, ApprovalStatus,
}
use vrindavan.Tables.Purchase.{purchase_returns, purchase_return_lines}
use vrindavan.Trade.Double.{Double, thousandths, hundredths, multiply, reduce_sum, to_column}
use vrindavan.Inventory.Document.{
  Document, Loaded, find_all, find_document, insert_row, create_document, approve_document,
  delete_document,
}
use vrindavan.Stock.Posting.{PostMovementInput, LiveBalance, get_live_balance, post_stock_movement}

pub record CreatePurchaseReturnLineProps : Type 0 where
  pub product_id : ℕ
  pub batch_id : Option ℕ
  pub quantity : ℕ
  pub rate : ℕ

pub record CreatePurchaseReturnProps : Type 0 where
  pub supplier_id : ℕ
  pub purchase_invoice_id : Option ℕ
  pub warehouse_id : ℕ
  pub return_date : Option ℕ
  pub reason : Option String
  pub lines : List CreatePurchaseReturnLineProps

abbrev pub is_draft : ApprovalStatus → Bool
is_draft ApprovalStatus.draft = true
is_draft ApprovalStatus.approved = false
is_draft ApprovalStatus.cancelled = false

abbrev pub document : Document PurchaseReturnRow PurchaseReturnLineRow
document = record {
  headers = purchase_returns;
  line_rows = purchase_return_lines;
  parent_of = λ l. l.return_id;
  is_draft = λ h. is_draft h.status;
  date_of = λ h. h.return_date;
  document_type = DocumentType.purchase_return;
  prefix = "PRET";
}

abbrev pub PurchaseReturn : Type 0
PurchaseReturn = Loaded PurchaseReturnRow PurchaseReturnLineRow

unfoldable pub find_purchase_returns_with_lines : Trx (List PurchaseReturn)
unfolding find_all
find_purchase_returns_with_lines = find_all document

unfoldable pub find_purchase_return : ℕ → Trx (Option PurchaseReturn)
unfolding find_document
find_purchase_return = find_document document

-- `quantity * rate`
unfoldable pub amount : ℕ → ℕ → Double
unfolding multiply thousandths hundredths
amount quantity rate = multiply (thousandths quantity) (hundredths rate)

unfoldable pub line_values :
    PurchaseReturnRow → CreatePurchaseReturnLineProps → ℕ → PurchaseReturnLineRow
unfolding amount to_column
line_values header line id = record {
  id = id;
  return_id = header.id;
  product_id = line.product_id;
  batch_id = line.batch_id;
  quantity = line.quantity;
  rate = line.rate;
  line_total = to_column (amount line.quantity line.rate);
}

unfoldable pub insert_line :
    PurchaseReturnRow → CreatePurchaseReturnLineProps → Trx PurchaseReturnLineRow
unfolding line_values
insert_line header line = insert_row document purchase_return_lines (line_values header line)

unfoldable pub header_values :
    Clock → CreatePurchaseReturnProps → Option ℕ → List ℕ → ℕ → PurchaseReturnRow
unfolding amount to_column reduce_sum
header_values clock props created_by number id = record {
  id = id;
  return_number = number;
  return_date = get_or props.return_date clock.today;
  supplier_id = props.supplier_id;
  purchase_invoice_id = props.purchase_invoice_id;
  warehouse_id = props.warehouse_id;
  reason = props.reason;
  status = ApprovalStatus.draft;
  total_amount = to_column (reduce_sum (map (λ l. amount l.quantity l.rate) props.lines));
  created_by = created_by;
  approved_by = none;
  approved_at = none;
  created_at = clock.now;
  updated_at = clock.now;
}

unfoldable pub create_purchase_return :
    Clock → CreatePurchaseReturnProps → Option ℕ → Trx PurchaseReturn
unfolding create_document header_values insert_line
create_purchase_return clock props created_by =
    create_document document (header_values clock props created_by) props.lines insert_line

-- No rack and no location.
unfoldable pub line_dims : PurchaseReturnRow → PurchaseReturnLineRow → Dims
line_dims header line = record {
  product_id = line.product_id;
  warehouse_id = header.warehouse_id;
  rack_id = none;
  location_id = none;
  batch_id = line.batch_id;
}

unfoldable pub movement : PurchaseReturnRow → PurchaseReturnLineRow → ℕ → PostMovementInput
unfolding line_dims
movement header line unit_cost = record {
  dims = line_dims header line;
  movement_type = MovementType.return_out;
  qty_in = none;
  qty_out = some line.quantity;
  unit_cost = some unit_cost;
  reference_type = ReferenceType.purchase_return;
  reference_id = header.id;
  reference_line_id = some line.id;
  remarks = none;
  created_by = none;
}

-- `liveBalance?.averageCost ?? Number(line.rate)`: a rate has two decimals, a cost four.
abbrev pub cost_or_rate : Option LiveBalance → ℕ → ℕ
cost_or_rate (some b) rate = b.average_cost
cost_or_rate none rate = rate * 100

unfoldable pub post_line : Clock → PurchaseReturnRow → PurchaseReturnLineRow → Trx (Unit {0})
unfolding movement get_live_balance
post_line clock header line = do
  live_balance ← get_live_balance (line_dims header line)
  post_stock_movement clock (movement header line (cost_or_rate live_balance line.rate))

unfoldable pub stamp_approved : Clock → Option ℕ → PurchaseReturnRow → PurchaseReturnRow
stamp_approved clock approved_by h = record h {
  status = ApprovalStatus.approved;
  approved_by = approved_by;
  approved_at = some clock.now;
  updated_at = clock.now;
}

unfoldable pub approve_purchase_return : Clock → Option ℕ → ℕ → Trx PurchaseReturn
unfolding approve_document post_line stamp_approved
approve_purchase_return clock approved_by =
    approve_document document (post_line clock) (stamp_approved clock approved_by)

unfoldable pub delete_purchase_return : ℕ → Trx Bool
unfolding delete_document
delete_purchase_return = delete_document document
