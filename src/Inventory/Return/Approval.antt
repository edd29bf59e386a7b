-- ===== src/Inventory/Return/Approval.antt =====
-- What approving a stock return does (`approve` of stock-return.kysely-repository.ts).
use vrindavan.Base.{ℕ, ◌+◌, ◌≡◌, refl, Option, some, List, arith, sum_by, find_where}
use vrindavan.Exec.{ok}
use vrindavan.Exec.Within.{Within, Within-weaken}
use vrindavan.Db.{Db, Clock, Dims, ReturnRow, ReturnLineRow}
use vrindavan.Tables.{has_id, stock_returns}
use vrindavan.Stock.Dims.{same_dims}
use vrindavan.Stock.Posting.{post_stock_movement}
use vrindavan.Stock.Frame.{OnlyStock, post_stock_movement-OnlyStock}
use vrindavan.Stock.Consistent.{IsConsistent, Keeps, post_stock_movement-IsConsistent}
use vrindavan.Stock.Flow.{when, on_hand, Shifts, post_stock_movement-Shifts}
use vrindavan.Inventory.Document.{lines_for}
use vrindavan.Inventory.Document.Laws.{IsDocument, approve_document-IsConsistent}
use vrindavan.Inventory.Document.Lines.{approve-lines_returned}
use vrindavan.Inventory.Return.{
  document, StockReturn, line_dims, movement, post_line, stamp_approved, approve_return,
}

pub document-IsDocument : IsDocument document
document-IsDocument = record {
  rows-put = λ xs db. refl;
  rows-with_stock = λ s t. refl;
  ledger-put = λ xs db. refl;
  balances-put = λ xs db. refl;
}

-- A line posts one movement, at a cost that it reads from the database.
pub post_line-Within :
    (R : Db → Db → Type 0) (clock : Clock) (h : ReturnRow) (l : ReturnLineRow)
    → ((cost : ℕ) → Within R (post_stock_movement clock (movement h l cost)))
    → Within R (post_line clock h l)
unfolding post_line
post_line-Within R clock h l posts = record { at = λ s. (posts _).at s }

pub post_line-OnlyStock :
    (clock : Clock) (h : ReturnRow) (l : ReturnLineRow) → Within OnlyStock (post_line clock h l)
post_line-OnlyStock clock h l =
    post_line-Within OnlyStock clock h l
      (λ cost. post_stock_movement-OnlyStock clock (movement h l cost))

-- Approving a stock return keeps the invariant of the stock tables, whether it returns or throws.
pub approve_return-IsConsistent :
    (clock : Clock) (by : Option ℕ) (id : ℕ) (s : Db)
    → IsConsistent s
    → IsConsistent (approve_return clock by id s).1
unfolding approve_return
approve_return-IsConsistent clock by =
    approve_document-IsConsistent document document-IsDocument (post_line clock)
      (stamp_approved clock by)
      (λ h l.
        post_line-Within (Keeps IsConsistent) clock h l
          (λ cost. post_stock_movement-IsConsistent clock (movement h l cost)))

-- The stock that a line is about.
abbrev pub stock_of : ReturnRow → ReturnLineRow → Dims
stock_of h l = record {
  product_id = l.product_id;
  warehouse_id = h.warehouse_id;
  rack_id = l.rack_id;
  location_id = l.location_id;
  batch_id = l.batch_id;
}

abbrev pub lines_quantity : ReturnRow → Dims → List ReturnLineRow → ℕ
lines_quantity h d = sum_by (λ l. when (same_dims (stock_of h l) d) l.quantity)

post_line-Shifts :
    (clock : Clock) (d : Dims) (h : ReturnRow) (l : ReturnLineRow)
    → Within (Shifts d (when (same_dims (line_dims h l) d) l.quantity) 0) (post_line clock h l)
unfolding movement
post_line-Shifts clock d h l = post_line-Within _ clock h l λ cost.
    Within-weaken _ _ _ (λ s t shifts. ground (arith, shifts))
      (post_stock_movement-Shifts clock (movement h l cost) d)

-- After a stock return is approved, the quantity on hand at every dimension is what was there and
-- the document's lines for it.
pub approve_return-on_hand :
    (clock : Clock) (by : Option ℕ) (id : ℕ) (s t : Db) (d : Dims) (h : ReturnRow)
    (doc : StockReturn)
    → find_where (has_id stock_returns id) s.stock_returns ≡ some h
    → approve_return clock by id s ≡ (ok doc, t)
    → on_hand d t ≡ on_hand d s + lines_quantity h d (lines_for document id s)
unfolding approve_return line_dims
approve_return-on_hand clock by id s t d h doc found returned =
    approve-lines_returned document document-IsDocument (post_line clock) (stamp_approved clock by)
      (λ ls s t. on_hand d t ≡ on_hand d s + lines_quantity h d ls) (λ s. omega arith)
      (λ ls s t u r same. rw same.1 r) id s t doc
      (λ l.
        Within-weaken _ _ _ (λ s t one ls u rest. omega (arith, one, rest))
          (post_line-Shifts clock d h l))
      found returned
