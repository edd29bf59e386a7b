-- ===== src/Sales/Return.antt =====
-- SalesReturn documents (backend/src/modules/sales: domain/sales-return.entity.ts,
-- infrastructure/sales-return.kysely-repository.ts).
use vrindavan.Base.{map, ℕ, String, Bool, true, false, Option, none, some, List, get_or}
use vrindavan.Exec.{◌>>=◌, gets}
use vrindavan.Db.{
  DocumentType, MovementType, ReferenceType, Trx, Clock, Dims, SalesReturnRow, SalesReturnLineRow,
  ApprovalStatus,
}
use vrindavan.Tables.Sales.{sales_returns, sales_return_lines}
use vrindavan.Trade.Double.{Double, thousandths, hundredths, multiply, reduce_sum, to_column}
use vrindavan.Inventory.Document.{
  Document, Loaded, find_all, find_document, insert_row, create_document, approve_document,
  delete_document,
}
use vrindavan.Stock.Posting.{PostMovementInput, get_live_balance, post_stock_movement}
use vrindavan.Inventory.Return.{return_cost}

pub record CreateSalesReturnLineProps : Type 0 where
  pub product_id : ℕ
  pub batch_id : Option ℕ
  pub quantity : ℕ
  pub rate : ℕ

pub record CreateSalesReturnProps : Type 0 where
  pub customer_id : ℕ
  pub sales_invoice_id : Option ℕ
  pub warehouse_id : ℕ
  pub return_date : Option ℕ
  pub reason : Option String
  pub lines : List CreateSalesReturnLineProps

abbrev pub is_draft : ApprovalStatus → Bool
is_draft ApprovalStatus.draft = true
is_draft ApprovalStatus.approved = false
is_draft ApprovalStatus.cancelled = false

abbrev pub document : Document SalesReturnRow SalesReturnLineRow
document = record {
  headers = sales_returns;
  line_rows = sales_return_lines;
  parent_of = λ l. l.return_id;
  is_draft = λ h. is_draft h.status;
  date_of = λ h. h.return_date;
  document_type = DocumentType.sales_return;
  prefix = "SRET";
}

abbrev pub SalesReturn : Type 0
SalesReturn = Loaded SalesReturnRow SalesReturnLineRow

unfoldable pub find_sales_returns_with_lines : Trx (List SalesReturn)
unfolding find_all
find_sales_returns_with_lines = find_all document

unfoldable pub find_sales_return : ℕ → Trx (Option SalesReturn)
unfolding find_document
find_sales_return = find_document document

-- `quantity * rate`
unfoldable pub amount : ℕ → ℕ → Double
unfolding multiply thousandths hundredths
amount quantity rate = multiply (thousandths quantity) (hundredths rate)

unfoldable pub line_values : SalesReturnRow → CreateSalesReturnLineProps → ℕ → SalesReturnLineRow
unfolding amount to_column
line_values header line id = record {
  id = id;
  return_id = header.id;
  product_id = line.product_id;
  batch_id = line.batch_id;
  quantity = line.quantity;
  rate = line.rate;
  line_total = to_column (amount line.quantity line.rate);
}

unfoldable pub insert_line : SalesReturnRow → CreateSalesReturnLineProps → Trx SalesReturnLineRow
unfolding line_values
insert_line header line = insert_row document sales_return_lines (line_values header line)

unfoldable pub header_values :
    Clock → CreateSalesReturnProps → Option ℕ → List ℕ → ℕ → SalesReturnRow
unfolding amount to_column reduce_sum
header_values clock props created_by number id = record {
  id = id;
  return_number = number;
  return_date = get_or props.return_date clock.today;
  customer_id = props.customer_id;
  sales_invoice_id = props.sales_invoice_id;
  warehouse_id = props.warehouse_id;
  reason = props.reason;
  status = ApprovalStatus.draft;
  total_amount = to_column (reduce_sum (map (λ l. amount l.quantity l.rate) props.lines));
  created_by = created_by;
  approved_by = none;
  approved_at = none;
  created_at = clock.now;
  updated_at = clock.now;
}

unfoldable pub create_sales_return : Clock → CreateSalesReturnProps → Option ℕ → Trx SalesReturn
unfolding create_document header_values insert_line
create_sales_return clock props created_by =
    create_document document (header_values clock props created_by) props.lines insert_line

-- No rack and no location.
unfoldable pub line_dims : SalesReturnRow → SalesReturnLineRow → Dims
line_dims header line = record {
  product_id = line.product_id;
  warehouse_id = header.warehouse_id;
  rack_id = none;
  location_id = none;
  batch_id = line.batch_id;
}

unfoldable pub movement : SalesReturnRow → SalesReturnLineRow → ℕ → PostMovementInput
unfolding line_dims
movement header line unit_cost = record {
  dims = line_dims header line;
  movement_type = MovementType.return_in;
  qty_in = some line.quantity;
  qty_out = none;
  unit_cost = some unit_cost;
  reference_type = ReferenceType.sales_return;
  reference_id = header.id;
  reference_line_id = some line.id;
  remarks = none;
  created_by = none;
}

unfoldable pub post_line : Clock → SalesReturnRow → SalesReturnLineRow → Trx (Unit {0})
unfolding movement get_live_balance return_cost
post_line clock header line = do
  live_balance ← get_live_balance (line_dims header line)
  unit_cost ← gets (return_cost live_balance line.product_id)
  post_stock_movement clock (movement header line unit_cost)

unfoldable pub stamp_approved : Clock → Option ℕ → SalesReturnRow → SalesReturnRow
stamp_approved clock approved_by h = record h {
  status = ApprovalStatus.approved;
  approved_by = approved_by;
  approved_at = some clock.now;
  updated_at = clock.now;
}

unfoldable pub approve_sales_return : Clock → Option ℕ → ℕ → Trx SalesReturn
unfolding approve_document post_line stamp_approved
approve_sales_return clock approved_by =
    approve_document document (post_line clock) (stamp_approved clock approved_by)

unfoldable pub delete_sales_return : ℕ → Trx Bool
unfolding delete_document
delete_sales_return = delete_document document
