-- ===== src/Inventory/Transfer/Approval.antt =====
-- What approving a stock transfer does (`approve` of stock-transfer.kysely-repository.ts).
use vrindavan.Base.{ℕ, ◌+◌, ◌≡◌, refl, Option, some, List, arith, sum_by, find_where, ◌==◌}
use vrindavan.Exec.{ok}
use vrindavan.Exec.Within.{Within, IsPreorder, Within-seq, Within-weaken}
use vrindavan.Db.{Db, Clock, Dims, TransferRow, TransferLineRow}
use vrindavan.Tables.{has_id, stock_transfers}
use vrindavan.Stock.Dims.{same_dims}
use vrindavan.Stock.Balances.{IsUnique, total_quantity}
use vrindavan.Stock.Posting.{post_stock_movement}
use vrindavan.Stock.Frame.{OnlyStock, OnlyStock-preorder, post_stock_movement-OnlyStock}
use vrindavan.Stock.Consistent.{
  IsConsistent, Keeps, Keeps-preorder, post_stock_movement-IsConsistent,
}
use vrindavan.Stock.Flow.{
  when, on_hand, Shifts, ShiftsTotal, post_stock_movement-Shifts, post_stock_movement-ShiftsTotal,
}
use vrindavan.Inventory.Document.{lines_for}
use vrindavan.Inventory.Document.Laws.{
  IsDocument, SameStock, approve_document-IsConsistent, approve_document-holds,
}
use vrindavan.Inventory.Document.Lines.{approve-lines_returned}
use vrindavan.Inventory.Transfer.{
  document, StockTransfer, source_dims, target_dims, movement_out, movement_in, post_line, complete,
  approve_transfer,
}

pub document-IsDocument : IsDocument document
document-IsDocument = record {
  rows-put = λ xs db. refl;
  rows-with_stock = λ s t. refl;
  ledger-put = λ xs db. refl;
  balances-put = λ xs db. refl;
}

-- The two movements of a line, each within its own relation.
module _ {R Q T : Db → Db → Type 0} (join : (s t u : Db) → R s t → Q t u → T s u) where
  pub post_line-Within :
      (clock : Clock) (h : TransferRow) (l : TransferLineRow)
      → ((cost : ℕ) → Within R (post_stock_movement clock (movement_out h l cost)))
      → ((cost : ℕ) → Within Q (post_stock_movement clock (movement_in h l cost)))
      → Within T (post_line clock h l)
  unfolding post_line
  post_line-Within clock h l out in_ = record {
    at = λ s. (Within-seq join _ (λ _. _) (out _) (λ _. in_ _)).at s;
  }

pub post_line-OnlyStock :
    (clock : Clock) (h : TransferRow) (l : TransferLineRow) → Within OnlyStock (post_line clock h l)
post_line-OnlyStock clock h l =
    post_line-Within OnlyStock-preorder.trans clock h l
      (λ cost. post_stock_movement-OnlyStock clock (movement_out h l cost))
      (λ cost. post_stock_movement-OnlyStock clock (movement_in h l cost))

post_line-IsConsistent :
    (clock : Clock) (h : TransferRow) (l : TransferLineRow)
    → Within (Keeps IsConsistent) (post_line clock h l)
post_line-IsConsistent clock h l =
    post_line-Within (Keeps-preorder IsConsistent).trans clock h l
      (λ cost. post_stock_movement-IsConsistent clock (movement_out h l cost))
      (λ cost. post_stock_movement-IsConsistent clock (movement_in h l cost))

-- Approving a transfer keeps the invariant of the stock tables, whether it returns or throws.
pub approve_transfer-IsConsistent :
    (clock : Clock) (by : Option ℕ) (id : ℕ) (s : Db)
    → IsConsistent s
    → IsConsistent (approve_transfer clock by id s).1
unfolding approve_transfer
approve_transfer-IsConsistent clock by =
    approve_document-IsConsistent document document-IsDocument (post_line clock) (complete clock by)
      (post_line-IsConsistent clock)

abbrev SameTotal : ℕ → Db → Db → Type 0
SameTotal p = ShiftsTotal p 0 0

SameTotal-preorder : (p : ℕ) → IsPreorder (SameTotal p)
SameTotal-preorder p = record {
  rfl = λ s u. (u, refl);
  trans = λ s t u f g h. let k = f h in let m = g k.0 in (m.0, omega arith);
}

post_line-SameTotal :
    (clock : Clock) (p : ℕ) (h : TransferRow) (l : TransferLineRow)
    → Within (SameTotal p) (post_line clock h l)
unfolding movement_out movement_in
post_line-SameTotal clock p h l =
    post_line-Within join clock h l
      (λ cost. post_stock_movement-ShiftsTotal clock (movement_out h l cost) p)
      (λ cost. post_stock_movement-ShiftsTotal clock (movement_in h l cost) p)
  where
    join :
        (s t u : Db)
        → ShiftsTotal p (when (l.product_id == p) 0) (when (l.product_id == p) l.quantity) s t
        → ShiftsTotal p (when (l.product_id == p) l.quantity) (when (l.product_id == p) 0) t u
        → SameTotal p s u
    join s t u f g h = let k = f h in let m = g k.0 in (m.0, ground arith)

SameTotal-SameStock : (p : ℕ) (s t u : Db) → SameTotal p s t → SameStock t u → SameTotal p s u
SameTotal-SameStock p s t u f same k = rw same.1 (f k)

-- A transfer neither makes nor loses stock: where balances are keyed uniquely, approving it leaves
-- the quantity of every product, summed over all its balances, as it was, whether it returns or throws.
pub approve_transfer-conserves :
    (clock : Clock) (by : Option ℕ) (id p : ℕ) (s : Db)
    → IsUnique s.stock_balances
    → total_quantity p (approve_transfer clock by id s).1.stock_balances
      ≡ total_quantity p s.stock_balances
unfolding approve_transfer
approve_transfer-conserves clock by id p s u =
    let moved =
      approve_document-holds document document-IsDocument (post_line clock) (complete clock by)
        (SameTotal p) (SameTotal-preorder p)
        (λ s t u f same k. SameTotal-SameStock p s t u f same k) (post_line-SameTotal clock p) id s
        u in
    omega (arith, moved.1)

-- The stock that a line is to leave, and the stock that it is to join.
abbrev pub leaves_from : TransferRow → TransferLineRow → Dims
leaves_from h l = record {
  product_id = l.product_id;
  warehouse_id = h.from_warehouse_id;
  rack_id = l.from_rack_id;
  location_id = l.from_location_id;
  batch_id = l.batch_id;
}

abbrev pub arrives_at : TransferRow → TransferLineRow → Dims
arrives_at h l = record {
  product_id = l.product_id;
  warehouse_id = h.to_warehouse_id;
  rack_id = l.to_rack_id;
  location_id = l.to_location_id;
  batch_id = l.batch_id;
}

abbrev pub lines_out : TransferRow → Dims → List TransferLineRow → ℕ
lines_out h d = sum_by (λ l. when (same_dims (leaves_from h l) d) l.quantity)

abbrev lines_in : TransferRow → Dims → List TransferLineRow → ℕ
lines_in h d = sum_by (λ l. when (same_dims (arrives_at h l) d) l.quantity)

pub post_line-Shifts :
    (clock : Clock) (d : Dims) (h : TransferRow) (l : TransferLineRow)
    → Within
        (Shifts d
          (when (same_dims (target_dims h l) d) l.quantity)
          (when (same_dims (source_dims h l) d) l.quantity))
        (post_line clock h l)
unfolding movement_out movement_in
post_line-Shifts clock d h l =
    post_line-Within join clock h l
      (λ cost. post_stock_movement-Shifts clock (movement_out h l cost) d)
      (λ cost. post_stock_movement-Shifts clock (movement_in h l cost) d)
  where
    join :
        (s t u : Db)
        → Shifts d
            (when (same_dims (source_dims h l) d) 0)
            (when (same_dims (source_dims h l) d) l.quantity)
            s
            t
        → Shifts d
            (when (same_dims (target_dims h l) d) l.quantity)
            (when (same_dims (target_dims h l) d) 0)
            t
            u
        → Shifts d
            (when (same_dims (target_dims h l) d) l.quantity)
            (when (same_dims (source_dims h l) d) l.quantity)
            s
            u
    join s t u f g = ground arith

-- The quantity on hand after a transfer that returns: at every dimension, what was there, less
-- the lines that it is the source of, and more the lines that it is the target of.
pub approve_transfer-on_hand :
    (clock : Clock) (by : Option ℕ) (id : ℕ) (s t : Db) (d : Dims) (h : TransferRow)
    (doc : StockTransfer)
    → find_where (has_id stock_transfers id) s.stock_transfers ≡ some h
    → approve_transfer clock by id s ≡ (ok doc, t)
    → on_hand d t + lines_out h d (lines_for document id s)
      ≡ on_hand d s + lines_in h d (lines_for document id s)
unfolding approve_transfer source_dims target_dims
approve_transfer-on_hand clock by id s t d h doc found returned =
    approve-lines_returned document document-IsDocument (post_line clock) (complete clock by)
      (λ ls. Shifts d (lines_in h d ls) (lines_out h d ls)) (λ s. refl)
      (λ ls s t u r same. rw same.1 r) id s t doc
      (λ l.
        Within-weaken _ _ _ (λ s t one ls u rest. omega (arith, one, rest))
          (post_line-Shifts clock d h l))
      found returned
