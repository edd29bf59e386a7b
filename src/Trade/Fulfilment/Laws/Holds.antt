-- ===== src/Trade/Fulfilment/Laws/Holds.antt =====
-- What fulfilling may do to the database: a relation that each part stays within holds of the whole
-- call, whether it returns or throws.
use vrindavan.Base.{ℕ, Option, none, some, find_where, ◌==◌}
use vrindavan.Exec.Within.{
  Within, IsPreorder, Within-bind, Within-then, Within-pure, Within-gets, Within-or_throw,
  transaction-holds,
}
use vrindavan.Db.{Db, Clock, no_result}
use vrindavan.Tables.{has_id, update_all, update_by_id}
use vrindavan.Inventory.Document.{to_domain, approval}
use vrindavan.Inventory.Document.Laws.{approval-Within}
use vrindavan.Trade.Fulfilment.{
  Fulfils, fulfil_line, count_order_line, lines_of_order, is_complete, is_begun, write_status,
  refresh_order, follow_order, fulfil,
}
use vrindavan.Trade.Fulfilment.Unrounded.{Within-if}

module _ {H L O M : Type 0} (f : Fulfils H L O M) {R : Db → Db → Type 0} (pre : IsPreorder R)
    (clock : Clock) (posts : (h : H) (l : L) (k : ℕ) → Within R (f.post clock h l k))
    (counts : (id : ℕ) (g : M → M)
      → Within R (update_all f.order_lines (has_id f.order_lines id) g))
    (stamps : (id : ℕ) → Within R (update_by_id f.note.headers id (f.stamp clock)))
    (follows : (g : O → O) (id : ℕ) → Within R (write_status f g id)) where
  count-holds : (l : L) (o : Option ℕ) → Within R (count_order_line f l o)
  count-holds l none = Within-pure pre tt
  count-holds l (some id) = counts id (f.add (f.quantity_on l))

  fulfil_line-holds : (h : H) (l : L) → Within R (fulfil_line f clock h l)
  unfolding fulfil_line
  fulfil_line-holds h l =
      Within-bind pre _ _
        (Within-gets pre (λ db. find_where (λ u. u.id == f.unit_of l) db.product_units))
        λ found. Within-bind pre _ _ (Within-or_throw pre found no_result) λ u.
          Within-then pre _ _ (posts h l u.conversion_factor) (count-holds l (f.order_line_of l))

  approval-holds : (id : ℕ) → Within R (approval f.note (fulfil_line f clock) (f.stamp clock) id)
  approval-holds id =
      approval-Within f.note (fulfil_line f clock) (f.stamp clock) pre pre.trans id
        (λ h l draft. fulfil_line-holds h l)
        (λ rows. Within-bind pre _ _ (stamps id) λ h. Within-pure pre (to_domain f.note h rows))

  follow_order-holds : (o : Option ℕ) → Within R (follow_order f clock o)
  unfolding refresh_order
  follow_order-holds none = Within-pure pre tt
  follow_order-holds (some id) = Within-bind pre _ _ (Within-gets pre (lines_of_order f id)) λ ms.
      Within-if (is_complete f ms) _ _ (follows (f.completed clock) id)
        (Within-if (is_begun f ms) _ _ (follows (f.partially clock) id) (Within-pure pre tt))

  pub fulfil-holds : (id : ℕ) (s : Db) → R s (fulfil f clock id s).1
  unfolding fulfil
  fulfil-holds id s = transaction-holds pre _ s (
      Within-bind pre _ _ (approval-holds id) λ note.
        Within-then pre _ _ (follow_order-holds (f.order_of note.header)) (Within-pure pre note))
