-- ===== src/Trade/Payment/Inserted.antt =====
-- What inserting a payment may do: what inserting the row may, or else it throws.
use vrindavan.Base.{ℕ, not, ◌==◌}
use vrindavan.Exec.Within.{
  IsPreorder, Within, Within-bind, Within-then, Within-gets, Within-throw_if,
}
use vrindavan.Db.{Db, check_violation, unique_violation, foreign_key_violation}
use vrindavan.Inventory.Document.{insert_row}
use vrindavan.Trade.Payment.{Billing, is_taken, insert_payment}

pub insert_payment-Within :
    {H A I : Type 0} (b : Billing H A I) {R : Db → Db → Type 0} (pre : IsPreorder R)
    (new_header : ℕ → H)
    → Within R (insert_row b.payments b.payments.headers new_header)
    → Within R (insert_payment b new_header)
unfolding insert_payment
insert_payment-Within b pre new_header inserts =
    Within-bind pre _ _ (Within-gets pre (λ db. new_header db.next_id)) λ h.
      Within-then pre _ _ (Within-throw_if pre (b.amount_on h == 0) check_violation) (
        Within-bind pre _ _ (Within-gets pre (is_taken b (b.number_of h))) λ taken.
          Within-then pre _ _ (Within-throw_if pre taken unique_violation) (
            Within-bind pre _ _ (Within-gets pre (b.has_party h)) λ known.
              Within-then pre _ _ (Within-throw_if pre (not known) foreign_key_violation) inserts))
