-- ===== src/Inventory/OpeningStock/Once.antt =====
-- A product's opening stock is posted at most once (opening-stock.kysely-repository.ts).
use vrindavan.Base.{
  ℕ, ◌≡◌, inl, inr, Bool, true, Option, List, [], ◌∷◌, ◌++◌, arith, any, ==_refl, Bool-cases,
}
use vrindavan.Exec.{ok, err, transaction}
use vrindavan.Exec.Within.{
  Post, Within, Within-weaken, Within-transaction, Within-returned, transaction-holds,
}
use vrindavan.Db.{Db, Clock, opening_stock_already_posted}
use vrindavan.Stock.Posting.{ledger_row, post_stock_movement}
use vrindavan.Stock.Guard.{Posted, post_stock_movement-Posted}
use vrindavan.Stock.Consistent.{
  IsConsistent, Keeps, Keeps-preorder, post_stock_movement-IsConsistent,
}
use vrindavan.Inventory.OpeningStock.{
  is_opening_row, has_opening_stock_been_posted, opening_movement, post_opening_stock,
  post_unposted,
}

any-append {ℓ} :
    {A : Type ℓ} (p : A → Bool) (xs : List A) (x : A) → p x ≡ true → any p (xs ++ x ∷ []) ≡ true
any-append p [] x h = rw h
any-append p (y ∷ xs) x h = ground (arith, any-append p xs x h)

module _ (clock : Clock) (product_id warehouse_id quantity unit_cost : ℕ) (by : Option ℕ) where
  post_unposted-Within :
      (R : Db → Db → Type 0)
      → Within R (
          post_stock_movement clock
            (opening_movement product_id warehouse_id quantity unit_cost by))
      → Within R (post_unposted clock product_id warehouse_id quantity unit_cost by)
  unfolding post_unposted
  post_unposted-Within R h = record { at = run }
    where
      run :
          (s : Db) → Post R s (post_unposted clock product_id warehouse_id quantity unit_cost by s)
      run s = elim (Bool-cases (has_opening_stock_been_posted product_id s)) [
        | inl old ↦ rw old tt
        | inr new ↦ rw new (h.at s)
      ]

  abbrev IsPosted : Db → Db → Type 0
  IsPosted s t = has_opening_stock_been_posted product_id t ≡ true

  post_unposted-IsPosted :
      Within IsPosted (post_unposted clock product_id warehouse_id quantity unit_cost by)
  unfolding opening_movement ledger_row has_opening_stock_been_posted
  post_unposted-IsPosted = post_unposted-Within IsPosted (
      Within-weaken (Posted clock (opening_movement product_id warehouse_id quantity unit_cost by))
        _ _
        (λ s t p.
          rw p.1.0 (any-append (is_opening_row product_id) s.stock_ledger _ (==_refl product_id)))
        (post_stock_movement-Posted clock _))

  -- Posting keeps the invariant of the stock tables, whether it returns or throws.
  pub post_opening_stock-IsConsistent :
      (s : Db)
      → IsConsistent s
      → IsConsistent (post_opening_stock clock product_id warehouse_id quantity unit_cost by s).1
  unfolding post_opening_stock
  post_opening_stock-IsConsistent s =
      transaction-holds (Keeps-preorder IsConsistent) _ s
        (post_unposted-Within (Keeps IsConsistent) (post_stock_movement-IsConsistent clock _))

  -- Once a product's opening stock is posted, posting it again is refused, for any warehouse,
  -- quantity and cost, and writes nothing.
  pub post_opening_stock_twice :
      (later : Clock) (warehouse_id' quantity' unit_cost' : ℕ) (by' : Option ℕ) (s t : Db)
      → post_opening_stock clock product_id warehouse_id quantity unit_cost by s ≡ (ok tt, t)
      → post_opening_stock later product_id warehouse_id' quantity' unit_cost' by' t
        ≡ (err (opening_stock_already_posted product_id), t)
  unfolding post_opening_stock
  post_opening_stock_twice later warehouse_id' quantity' unit_cost' by' s t returned =
      let posted =
        Within-returned
          (transaction (post_unposted clock product_id warehouse_id quantity unit_cost by)) s t tt
          (Within-transaction _ post_unposted-IsPosted) returned in
      unfold post_unposted in rw posted
