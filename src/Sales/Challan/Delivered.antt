-- ===== src/Sales/Challan/Delivered.antt =====
-- What delivering a challan does to its sales order: `deliver`
-- (backend/src/modules/sales/infrastructure/delivery-challan.kysely-repository.ts).
use vrindavan.Base.{
  ℕ, ◌+◌, ◌*◌, ◌≡◌, refl, sym, ap, ◌∙◌, subst, arith, Bool, true, false, ◌&&◌, Option, none, some,
  List, [], ◌∷◌, map, any, all, leb, ltb, ◌==◌, select_where, update_where, if◌then◌else◌,
}
use vrindavan.Exec.{ok}
use vrindavan.Exec.Within.{Within, IsPreorder, Within-bind, Within-gets}
use vrindavan.Db.{
  Db, Clock, DeliveryChallanRow, DeliveryChallanLineRow, SalesOrderRow, SalesOrderLineRow,
  SalesOrderStatus,
}
use vrindavan.Tables.{has_id}
use vrindavan.Stock.Posting.{
  PostMovementInput, live_balance_at, cost_of, get_live_balance, post_stock_movement,
}
use vrindavan.Stock.Frame.{OnlyStock-preorder, post_stock_movement-OnlyStock}
use vrindavan.Inventory.Document.RoundTrip.{Yield}
use vrindavan.Trade.Fulfilment.Unrounded.{post_unrounded-Within}
use vrindavan.Trade.Fulfilment.Laws
use vrindavan.Trade.Fulfilment.Laws.{
  IsFulfils, Fulfilled, counted_for, owed, progress, cons_row, status_for, followed,
}
use vrindavan.Trade.Fulfilment.Laws.Call.{fulfil-Fulfilled}
use vrindavan.Sales.Challan
use vrindavan.Sales.Challan.{DeliveryChallan, fulfils, post_line, line_dims, movement, deliver}

pub post_line-Within :
    {R : Db → Db → Type 0}
    → IsPreorder R
    → (clock : Clock) → ((input : PostMovementInput) → Within R (post_stock_movement clock input))
    → (h : DeliveryChallanRow) (l : DeliveryChallanLineRow) (k : ℕ)
    → Within R (post_line clock h l k)
unfolding post_line get_live_balance
post_line-Within pre clock posts h l k =
    Within-bind pre _ _ (Within-gets pre (λ db. live_balance_at (line_dims h l) db.stock_balances))
      λ b.
        post_unrounded-Within pre clock (movement h l k (cost_of b)) (l.quantity * k)
          (posts (movement h l k (cost_of b)))

pub fulfils-IsFulfils : IsFulfils fulfils
fulfils-IsFulfils = record {
  posts = λ clock. post_line-Within OnlyStock-preorder clock (post_stock_movement-OnlyStock clock);
  with_stock-rows = λ s t. (refl, refl);
  headers-put = λ xs db. (refl, refl);
  order_lines-put = λ xs db. (refl, refl);
  orders-put = λ xs db. (refl, refl);
  add-fulfilled = λ q m. refl;
  add-id = λ q m. refl;
}

-- What the lines add to the order line of the id: the quantity of each that names it.
abbrev pub counted : Option ℕ → ℕ → ℕ → ℕ
counted none quantity id = 0
counted (some named) quantity id = if id == named then quantity else 0

abbrev pub delivered_by : List DeliveryChallanLineRow → ℕ → ℕ
delivered_by [] id = 0
delivered_by (l ∷ ls) id = counted l.so_line_id l.quantity id + delivered_by ls id

-- The orders whose status a note may change.
abbrev pub may_follow : SalesOrderStatus → Bool
may_follow SalesOrderStatus.draft = false
may_follow SalesOrderStatus.pending_approval = false
may_follow SalesOrderStatus.approved = true
may_follow SalesOrderStatus.partially_delivered = true
may_follow SalesOrderStatus.completed = false
may_follow SalesOrderStatus.cancelled = false

-- The status, from whether each line is delivered in full and whether any is begun.
abbrev pub status_after : Bool → Bool → SalesOrderStatus → SalesOrderStatus
status_after true begun status = SalesOrderStatus.completed
status_after false true status = SalesOrderStatus.partially_delivered
status_after false false status = status

abbrev pub time_after : Bool → Bool → ℕ → ℕ → ℕ
time_after true begun now time = now
time_after false true now time = now
time_after false false now time = time

abbrev pub lines_of : ℕ → Db → List SalesOrderLineRow
lines_of id db = select_where (λ m. m.so_id == id) db.sales.sales_order_lines

abbrev pub delivered_in_full : List SalesOrderLineRow → Bool
delivered_in_full = all (λ m. leb m.quantity m.delivered_quantity)

abbrev pub begun : List SalesOrderLineRow → Bool
begun = any (λ m. ltb 0 m.delivered_quantity)

abbrev pub order_after : Clock → List SalesOrderLineRow → SalesOrderRow → SalesOrderRow
order_after clock ls o = record o {
  status = status_after (delivered_in_full ls) (begun ls) o.status;
  updated_at = time_after (delivered_in_full ls) (begun ls) clock.now o.updated_at;
}

-- The orders after a note of the reference, with the order lines as they are then.
abbrev pub orders_after : Clock → Option ℕ → Db → List SalesOrderRow → List SalesOrderRow
orders_after clock none t os = os
orders_after clock (some id) t os =
    update_where (λ o. o.id == id && may_follow o.status) (order_after clock (lines_of id t)) os

pub record Delivered (clock : Clock) (note : DeliveryChallan) (s t : Db) : Type 0 where
  pub lines :
      map {B = ℕ × ℕ} (λ m. (m.id, m.delivered_quantity)) t.sales.sales_order_lines
      ≡ map {B = ℕ × ℕ}
          (λ m. (m.id, m.delivered_quantity + delivered_by note.lines m.id))
          s.sales.sales_order_lines
  pub orders : t.sales.sales_orders ≡ orders_after clock note.header.so_id t s.sales.sales_orders

counted_lem :
    (named : Option ℕ) (quantity id : ℕ)
    → counted_for fulfils named id quantity ≡ counted named quantity id
counted_lem none quantity id = refl
counted_lem (some named) quantity id = refl

owed_lem : (ls : List DeliveryChallanLineRow) (id : ℕ) → owed fulfils id ls ≡ delivered_by ls id
owed_lem [] id = refl
owed_lem (l ∷ ls) id = rw (counted_lem l.so_line_id l.quantity id, owed_lem ls id) refl

progress_lem :
    (ls : List DeliveryChallanLineRow) (ms : List SalesOrderLineRow)
    → progress fulfils ls ms
      ≡ map {B = ℕ × ℕ} (λ m. (m.id, m.delivered_quantity + delivered_by ls m.id)) ms
progress_lem ls [] = refl
progress_lem ls (m ∷ ms) =
    cons_row refl (ap (λ n. m.delivered_quantity + n) (owed_lem ls m.id)) (progress_lem ls ms)

progress_start :
    (ms : List SalesOrderLineRow)
    → progress fulfils [] ms ≡ map {B = ℕ × ℕ} (λ m. (m.id, m.delivered_quantity)) ms
progress_start [] = refl
progress_start (m ∷ ms) = cons_row refl (omega arith) (progress_start ms)

followed_lem :
    (clock : Clock) (complete begun : Bool) (o : SalesOrderRow)
    → status_for fulfils complete begun clock o ≡ record o {
      status = status_after complete begun o.status;
      updated_at = time_after complete begun clock.now o.updated_at;
    }
followed_lem clock true begun o = refl
followed_lem clock false true o = refl
followed_lem clock false false o = refl

is_open_lem : (status : SalesOrderStatus) → Challan.is_open status ≡ may_follow status
is_open_lem SalesOrderStatus.draft = refl
is_open_lem SalesOrderStatus.pending_approval = refl
is_open_lem SalesOrderStatus.approved = refl
is_open_lem SalesOrderStatus.partially_delivered = refl
is_open_lem SalesOrderStatus.completed = refl
is_open_lem SalesOrderStatus.cancelled = refl

updated_lem :
    (clock : Clock) (ls : List SalesOrderLineRow) (id : ℕ) (os : List SalesOrderRow)
    → update_where
        (λ o. has_id fulfils.orders id o && Challan.is_open o.status)
        (followed fulfils clock ls)
        os
      ≡ update_where (λ o. o.id == id && may_follow o.status) (order_after clock ls) os
updated_lem clock ls id [] = refl
updated_lem clock ls id (o ∷ os) =
    rw
      (
        is_open_lem o.status,
        followed_lem clock (delivered_in_full ls) (begun ls) o,
        updated_lem clock ls id os,
      )
      refl

orders_lem :
    (clock : Clock) (order : Option ℕ) (t : Db) (os : List SalesOrderRow)
    → Laws.orders_after fulfils clock order t os ≡ orders_after clock order t os
orders_lem clock none t os = refl
orders_lem clock (some id) t os = updated_lem clock (lines_of id t) id os

restated :
    (clock : Clock) (note : DeliveryChallan) (s t : Db)
    → Fulfilled fulfils clock note s t
    → Delivered clock note s t
restated clock note s t done = record {
  lines =
      sym (progress_start t.sales.sales_order_lines)
      ∙ done.0
      ∙ progress_lem note.lines s.sales.sales_order_lines;
  orders = done.1 ∙ orders_lem clock note.header.so_id t s.sales.sales_orders;
}

-- A delivery that returned has added the quantity of each line of the challan to the sales order line
-- that it names, and to no other; and the challan's order, if it was approved or partially
-- delivered, is completed when every line of it is delivered, else partially delivered when some
-- line is begun, else as it was. No other order is written.
pub deliver-Fulfilled :
    (clock : Clock) (id : ℕ) (s t : Db) (note : DeliveryChallan)
    → deliver clock id s ≡ (ok note, t)
    → Delivered clock note s t
unfolding deliver
deliver-Fulfilled clock id s t note returned = restated clock note s t (
    subst (Yield (λ note t. Fulfilled fulfils clock note s t)) returned
      (fulfil-Fulfilled fulfils fulfils-IsFulfils clock id s))
