-- ===== src/Purchase/Grn/Received.antt =====
-- What completing a goods received note does to its purchase order: `complete`
-- (backend/src/modules/purchase/infrastructure/goods-received-note.kysely-repository.ts).
use vrindavan.Base.{
  ℕ, ◌+◌, ◌≡◌, refl, sym, ap, ◌∙◌, subst, arith, Bool, true, false, ◌&&◌, Option, none, some, List,
  [], ◌∷◌, map, any, all, leb, ltb, ◌==◌, select_where, update_where, if◌then◌else◌,
}
use vrindavan.Exec.{ok}
use vrindavan.Exec.Within.{Within}
use vrindavan.Db.{
  Db, Clock, GoodsReceivedNoteRow, GrnLineRow, PurchaseOrderRow, PurchaseOrderLineRow,
  PurchaseOrderStatus,
}
use vrindavan.Tables.{has_id}
use vrindavan.Stock.Frame.{OnlyStock, post_stock_movement-OnlyStock}
use vrindavan.Inventory.Document.RoundTrip.{Yield}
use vrindavan.Trade.Fulfilment.Laws
use vrindavan.Trade.Fulfilment.Laws.{
  IsFulfils, Fulfilled, counted_for, owed, progress, cons_row, status_for, followed,
}
use vrindavan.Trade.Fulfilment.Laws.Call.{fulfil-Fulfilled}
use vrindavan.Purchase.Grn
use vrindavan.Purchase.Grn.{GoodsReceivedNote, fulfils, post_line, complete_grn}

post_line-OnlyStock :
    (clock : Clock) (h : GoodsReceivedNoteRow) (l : GrnLineRow) (k : ℕ)
    → Within OnlyStock (post_line clock h l k)
unfolding post_line
post_line-OnlyStock clock h l k = post_stock_movement-OnlyStock clock _

pub fulfils-IsFulfils : IsFulfils fulfils
fulfils-IsFulfils = record {
  posts = post_line-OnlyStock;
  with_stock-rows = λ s t. (refl, refl);
  headers-put = λ xs db. (refl, refl);
  order_lines-put = λ xs db. (refl, refl);
  orders-put = λ xs db. (refl, refl);
  add-fulfilled = λ q m. refl;
  add-id = λ q m. refl;
}

-- What the lines add to the order line of the id: the quantity of each that names it.
abbrev pub counted : Option ℕ → ℕ → ℕ → ℕ
counted none quantity id = 0
counted (some named) quantity id = if id == named then quantity else 0

abbrev pub received_by : List GrnLineRow → ℕ → ℕ
received_by [] id = 0
received_by (l ∷ ls) id = counted l.po_line_id l.quantity id + received_by ls id

-- The orders whose status a note may change.
abbrev pub may_follow : PurchaseOrderStatus → Bool
may_follow PurchaseOrderStatus.draft = false
may_follow PurchaseOrderStatus.pending_approval = false
may_follow PurchaseOrderStatus.approved = true
may_follow PurchaseOrderStatus.partially_received = true
may_follow PurchaseOrderStatus.completed = false
may_follow PurchaseOrderStatus.cancelled = false

-- The status, from whether each line is received in full and whether any is begun.
abbrev pub status_after : Bool → Bool → PurchaseOrderStatus → PurchaseOrderStatus
status_after true begun status = PurchaseOrderStatus.completed
status_after false true status = PurchaseOrderStatus.partially_received
status_after false false status = status

abbrev pub time_after : Bool → Bool → ℕ → ℕ → ℕ
time_after true begun now time = now
time_after false true now time = now
time_after false false now time = time

abbrev pub lines_of : ℕ → Db → List PurchaseOrderLineRow
lines_of id db = select_where (λ m. m.po_id == id) db.purchase.purchase_order_lines

abbrev pub received_in_full : List PurchaseOrderLineRow → Bool
received_in_full = all (λ m. leb m.quantity m.received_quantity)

abbrev pub begun : List PurchaseOrderLineRow → Bool
begun = any (λ m. ltb 0 m.received_quantity)

abbrev pub order_after : Clock → List PurchaseOrderLineRow → PurchaseOrderRow → PurchaseOrderRow
order_after clock ls o = record o {
  status = status_after (received_in_full ls) (begun ls) o.status;
  updated_at = time_after (received_in_full ls) (begun ls) clock.now o.updated_at;
}

-- The orders after a note of the reference, with the order lines as they are then.
abbrev pub orders_after : Clock → Option ℕ → Db → List PurchaseOrderRow → List PurchaseOrderRow
orders_after clock none t os = os
orders_after clock (some id) t os =
    update_where (λ o. o.id == id && may_follow o.status) (order_after clock (lines_of id t)) os

pub record Received (clock : Clock) (note : GoodsReceivedNote) (s t : Db) : Type 0 where
  pub lines :
      map {B = ℕ × ℕ} (λ m. (m.id, m.received_quantity)) t.purchase.purchase_order_lines
      ≡ map {B = ℕ × ℕ}
          (λ m. (m.id, m.received_quantity + received_by note.lines m.id))
          s.purchase.purchase_order_lines
  pub orders :
      t.purchase.purchase_orders ≡ orders_after clock note.header.po_id t s.purchase.purchase_orders

counted_lem :
    (named : Option ℕ) (quantity id : ℕ)
    → counted_for fulfils named id quantity ≡ counted named quantity id
counted_lem none quantity id = refl
counted_lem (some named) quantity id = refl

owed_lem : (ls : List GrnLineRow) (id : ℕ) → owed fulfils id ls ≡ received_by ls id
owed_lem [] id = refl
owed_lem (l ∷ ls) id = rw (counted_lem l.po_line_id l.quantity id, owed_lem ls id) refl

progress_lem :
    (ls : List GrnLineRow) (ms : List PurchaseOrderLineRow)
    → progress fulfils ls ms
      ≡ map {B = ℕ × ℕ} (λ m. (m.id, m.received_quantity + received_by ls m.id)) ms
progress_lem ls [] = refl
progress_lem ls (m ∷ ms) =
    cons_row refl (ap (λ n. m.received_quantity + n) (owed_lem ls m.id)) (progress_lem ls ms)

progress_start :
    (ms : List PurchaseOrderLineRow)
    → progress fulfils [] ms ≡ map {B = ℕ × ℕ} (λ m. (m.id, m.received_quantity)) ms
progress_start [] = refl
progress_start (m ∷ ms) = cons_row refl (omega arith) (progress_start ms)

followed_lem :
    (clock : Clock) (complete begun : Bool) (o : PurchaseOrderRow)
    → status_for fulfils complete begun clock o ≡ record o {
      status = status_after complete begun o.status;
      updated_at = time_after complete begun clock.now o.updated_at;
    }
followed_lem clock true begun o = refl
followed_lem clock false true o = refl
followed_lem clock false false o = refl

is_open_lem : (status : PurchaseOrderStatus) → Grn.is_open status ≡ may_follow status
is_open_lem PurchaseOrderStatus.draft = refl
is_open_lem PurchaseOrderStatus.pending_approval = refl
is_open_lem PurchaseOrderStatus.approved = refl
is_open_lem PurchaseOrderStatus.partially_received = refl
is_open_lem PurchaseOrderStatus.completed = refl
is_open_lem PurchaseOrderStatus.cancelled = refl

updated_lem :
    (clock : Clock) (ls : List PurchaseOrderLineRow) (id : ℕ) (os : List PurchaseOrderRow)
    → update_where
        (λ o. has_id fulfils.orders id o && Grn.is_open o.status)
        (followed fulfils clock ls)
        os
      ≡ update_where (λ o. o.id == id && may_follow o.status) (order_after clock ls) os
updated_lem clock ls id [] = refl
updated_lem clock ls id (o ∷ os) =
    rw
      (
        is_open_lem o.status,
        followed_lem clock (received_in_full ls) (begun ls) o,
        updated_lem clock ls id os,
      )
      refl

orders_lem :
    (clock : Clock) (order : Option ℕ) (t : Db) (os : List PurchaseOrderRow)
    → Laws.orders_after fulfils clock order t os ≡ orders_after clock order t os
orders_lem clock none t os = refl
orders_lem clock (some id) t os = updated_lem clock (lines_of id t) id os

restated :
    (clock : Clock) (note : GoodsReceivedNote) (s t : Db)
    → Fulfilled fulfils clock note s t
    → Received clock note s t
restated clock note s t done = record {
  lines =
      sym (progress_start t.purchase.purchase_order_lines)
      ∙ done.0
      ∙ progress_lem note.lines s.purchase.purchase_order_lines;
  orders = done.1 ∙ orders_lem clock note.header.po_id t s.purchase.purchase_orders;
}

-- A completed note that returned has added the quantity of each of its lines to the purchase order
-- line that it names, and to no other; and the note's order, if it was approved or partially
-- received, is completed when every line of it is received, else partially received when some line
-- is begun, else as it was. No other order is written.
pub complete_grn-Fulfilled :
    (clock : Clock) (id : ℕ) (s t : Db) (note : GoodsReceivedNote)
    → complete_grn clock id s ≡ (ok note, t)
    → Received clock note s t
unfolding complete_grn
complete_grn-Fulfilled clock id s t note returned = restated clock note s t (
    subst (Yield (λ note t. Fulfilled fulfils clock note s t)) returned
      (fulfil-Fulfilled fulfils fulfils-IsFulfils clock id s))
