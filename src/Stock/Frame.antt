-- ===== src/Stock/Frame.antt =====
-- A movement writes the ledger and the balances, and no other table.
use vrindavan.Base.{◌≡◌, refl, ap, ◌∙◌, arith}
use vrindavan.Exec.Within.{Within, IsPreorder}
use vrindavan.Db.{Db, Clock}
use vrindavan.Stock.Posting.{PostMovementInput, post_stock_movement}

abbrev pub with_stock : Db → Db → Db
with_stock s t = record s {
  stock_ledger = t.stock_ledger;
  stock_balances = t.stock_balances;
  next_id = t.next_id;
}

abbrev pub OnlyStock : Db → Db → Type 0
OnlyStock s t = t ≡ with_stock s t

pub OnlyStock-preorder : IsPreorder OnlyStock
OnlyStock-preorder = record { rfl = λ s. refl; trans = λ s t u h k. k ∙ ap (λ x. with_stock x u) h }

pub post_stock_movement-OnlyStock :
    (clock : Clock) (input : PostMovementInput) → Within OnlyStock (post_stock_movement clock input)
unfolding post_stock_movement
post_stock_movement-OnlyStock clock input = record { at = λ s. ground arith }
