-- ===== src/Stock/Holds.antt =====
-- Updates of the balances that move no stock: what the triggers on reserved and blocked stock write.
use vrindavan.Base.{
  ◌+◌, ◌≡◌, refl, Bool, false, ◌&&◌, none, List, [], ◌∷◌, arith, any, All, ltb, update_where, ap,
}
use vrindavan.Db.{Db, Dims, BalanceRow}
use vrindavan.Stock.Dims.{same_dims}
use vrindavan.Stock.Trigger.{find_balance}
use vrindavan.Stock.Balances.{quantity_at, IsUnique, CoversHolds}
use vrindavan.Stock.Consistent.{IsConsistent}

module _ (p : BalanceRow → Bool) (f : BalanceRow → BalanceRow)
    (same_place : (r : BalanceRow) → (f r).dims ≡ r.dims)
    (same_quantity : (r : BalanceRow) → (f r).quantity ≡ r.quantity) where
  same_dims-moved : (r : BalanceRow) (d : Dims) → same_dims (f r).dims d ≡ same_dims r.dims d
  same_dims-moved r d = ap (λ x. same_dims x d) (same_place r)

  pub quantity_at-kept :
      (d : Dims) (rows : List BalanceRow)
      → quantity_at d (update_where p f rows) ≡ quantity_at d rows
  quantity_at-kept d [] = refl
  quantity_at-kept d (r ∷ rows) =
      ground (arith, same_dims-moved r d, same_quantity r, quantity_at-kept d rows)

  find_balance-kept :
      (d : Dims) (rows : List BalanceRow)
      → find_balance d rows ≡ none
      → find_balance d (update_where p f rows) ≡ none
  find_balance-kept d [] h = refl
  find_balance-kept d (r ∷ rows) h = ground (arith, same_dims-moved r d, find_balance-kept d rows)

  pub IsUnique-kept : (rows : List BalanceRow) → IsUnique rows → IsUnique (update_where p f rows)
  IsUnique-kept [] u = tt
  IsUnique-kept (r ∷ rows) u = ground (
    arith,
    same_place r,
    find_balance-kept (f r).dims rows,
    find_balance-kept r.dims rows,
    IsUnique-kept rows u.1,
  )

  -- The invariant of the stock is kept, if what is held stays covered.
  pub IsConsistent-kept :
      (s t : Db)
      → t.stock_ledger ≡ s.stock_ledger
      → t.stock_balances ≡ update_where p f s.stock_balances
      → All CoversHolds (update_where p f s.stock_balances)
      → IsConsistent s
      → IsConsistent t
  IsConsistent-kept s t l b covers c = record {
    derivable = λ d. rw (l, b, quantity_at-kept d s.stock_balances) (c.derivable d);
    unique = rw b (IsUnique-kept s.stock_balances c.unique);
    covered = rw b covers;
  }

module _ (p : BalanceRow → Bool) (f : BalanceRow → BalanceRow) where
  -- A check that no chosen row fails leaves every row covered.
  pub checked-CoversHolds :
      (rows : List BalanceRow)
      → any (λ b. p b && ltb (f b).quantity ((f b).reserved_quantity + (f b).blocked_quantity)) rows
        ≡ false
      → All CoversHolds rows
      → All CoversHolds (update_where p f rows)
  checked-CoversHolds [] h c = tt
  checked-CoversHolds (r ∷ rows) h c = ground (arith, checked-CoversHolds rows)

  -- So does a change that holds less.
  pub lifted-CoversHolds :
      ((r : BalanceRow) → CoversHolds r → CoversHolds (f r))
      → (rows : List BalanceRow) → All CoversHolds rows
      → All CoversHolds (update_where p f rows)
  lifted-CoversHolds less [] c = tt
  lifted-CoversHolds less (r ∷ rows) c = ground (arith, less r, lifted-CoversHolds less rows)
