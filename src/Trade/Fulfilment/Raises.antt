-- ===== src/Trade/Fulfilment/Raises.antt =====
-- Which exceptions fulfilling an order throws, and that it is atomic.
use vrindavan.Base.{
  String, ℕ, ◌≡◌, ◌*◌, Bool, true, false, Option, none, some, if◌then◌else◌, find_where, ◌==◌, ltb,
}
use vrindavan.Exec.{Exec, err, gets, pure, or_throw, ◌>>=◌, ◌>>◌}
use vrindavan.Exec.Raises.{
  Raises, Raises-bind, Raises-then, Raises-pure, Raises-or_throw, Raises-transaction,
  transaction-atomic,
}
use vrindavan.Db.{
  Db, Error, Clock, document_not_found, document_not_draft, no_result, insufficient_stock,
}
use vrindavan.Stock.Posting.{
  PostMovementInput, get_live_balance, quantity_of, refuse_short, post_stock_movement,
}
use vrindavan.Inventory.Document.{approval}
use vrindavan.Inventory.Document.Raises.{approval-Raises}
use vrindavan.Trade.Fulfilment.{
  Fulfils, millionths, post_unrounded, fulfil_line, count_order_line, count_towards, lines_of_order,
  is_complete, is_begun, write_status, refresh_order, follow_order, fulfil,
}

module _ (P : Error → Type 0) where
  Raises-if :
      {A : Type 0} (c : Bool) (m k : Exec Db Error A)
      → Raises P m
      → Raises P k
      → Raises P (if c then m else k)
  Raises-if true m k h g = h
  Raises-if false m k h g = g

  pub post_unrounded-Raises :
      ((name : String) (available required : ℕ) → P (insufficient_stock name available required))
      → (clock : Clock) (input : PostMovementInput) (exact : ℕ)
      → Raises P (post_stock_movement clock input)
      → Raises P (post_unrounded clock input exact)
  unfolding post_unrounded get_live_balance refuse_short
  post_unrounded-Raises short clock input exact posts =
      Raises-bind P (get_live_balance input.dims) _ (record { at = λ s. tt })
        λ b.
          Raises-if (ltb (quantity_of b * millionths) exact)
            (refuse_short input (quantity_of b) exact) (post_stock_movement clock input)
            (record { at = λ s. short _ _ _ }) posts

  module _ {H L O M : Type 0} (f : Fulfils H L O M) (clock : Clock) (gone : P no_result)
      (posts : (h : H) (l : L) (k : ℕ) → Raises P (f.post clock h l k)) where
    count_order_line-Raises : (l : L) (o : Option ℕ) → Raises P (count_order_line f l o)
    count_order_line-Raises l none = Raises-pure P tt
    count_order_line-Raises l (some id) = record { at = λ s. tt }

    fulfil_line-Raises : (h : H) (l : L) → Raises P (fulfil_line f clock h l)
    unfolding fulfil_line
    fulfil_line-Raises h l =
        Raises-bind P (gets (λ db. find_where (λ u. u.id == f.unit_of l) db.product_units)) _
          (record { at = λ s. tt })
          λ found.
            Raises-bind P (or_throw found no_result) _ (Raises-or_throw P found no_result gone) λ u.
              Raises-then P (f.post clock h l u.conversion_factor) (count_towards f l)
                (posts h l u.conversion_factor) (count_order_line-Raises l (f.order_line_of l))

    follow_order-Raises : (o : Option ℕ) → Raises P (follow_order f clock o)
    unfolding refresh_order
    follow_order-Raises none = Raises-pure P tt
    follow_order-Raises (some id) =
        Raises-bind P (gets (lines_of_order f id)) _ (record { at = λ s. tt })
          λ ms.
            Raises-if (is_complete f ms) (write_status f (f.completed clock) id) _
              (record { at = λ s. tt })
              (Raises-if (is_begun f ms) (write_status f (f.partially clock) id) _
                (record { at = λ s. tt }) (Raises-pure P tt))

    pub fulfil-Raises :
        (id : ℕ)
        → P (document_not_found id)
        → P (document_not_draft id)
        → Raises P (fulfil f clock id)
    unfolding fulfil
    fulfil-Raises id missing closed = Raises-transaction P _ (
        Raises-bind P (approval f.note (fulfil_line f clock) (f.stamp clock) id) _
          (approval-Raises f.note (fulfil_line f clock) (f.stamp clock) P id missing closed gone
            fulfil_line-Raises)
          λ note.
            Raises-then P (follow_order f clock (f.order_of note.header)) _
              (follow_order-Raises (f.order_of note.header)) (Raises-pure P note))

pub fulfil-atomic :
    {H L O M : Type 0} (f : Fulfils H L O M) (clock : Clock) (id : ℕ) (s t : Db) (e : Error)
    → fulfil f clock id s ≡ (err e, t)
    → t ≡ s
unfolding fulfil
fulfil-atomic f clock id s t e =
    transaction-atomic
      (approval f.note (fulfil_line f clock) (f.stamp clock) id >>= λ note.
        follow_order f clock (f.order_of note.header) >> pure note)
      s t e
