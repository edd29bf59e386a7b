-- ===== src/Trade/Fulfilment/Unrounded.antt =====
-- The movement of a delivery may do what any movement may, and else it throws.
use vrindavan.Base.{ℕ, Bool, true, false, ltb, if◌then◌else◌, ◌*◌}
use vrindavan.Exec.{Exec}
use vrindavan.Exec.Within.{Within, IsPreorder, Within-bind, Within-gets, Within-throw}
use vrindavan.Db.{Db, Clock, insufficient_stock}
use vrindavan.Stock.Posting.{
  PostMovementInput, get_live_balance, live_balance_at, quantity_of, refuse_short, product_name,
  post_stock_movement,
}
use vrindavan.Trade.Fulfilment.{post_unrounded, millionths}

pub Within-if :
    {S E A : Type 0} {R : S → S → Type 0} (c : Bool) (m k : Exec S E A)
    → Within R m
    → Within R k
    → Within R (if c then m else k)
Within-if true m k h g = h
Within-if false m k h g = g

pub post_unrounded-Within :
    {R : Db → Db → Type 0}
    → IsPreorder R
    → (clock : Clock) (input : PostMovementInput) (exact : ℕ)
    → Within R (post_stock_movement clock input)
    → Within R (post_unrounded clock input exact)
unfolding post_unrounded get_live_balance refuse_short
post_unrounded-Within pre clock input exact posts =
    Within-bind pre _ _ (Within-gets pre (λ db. live_balance_at input.dims db.stock_balances)) λ b.
      Within-if (ltb (quantity_of b * millionths) exact) _ _
        (Within-bind pre _ _ (Within-gets pre (product_name input.product_id))
          λ name. Within-throw pre (insufficient_stock name (quantity_of b) exact))
        posts
