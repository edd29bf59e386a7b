-- ===== src/Inventory/Blocked/Holds.antt =====
-- Every operation on blocked stock keeps the invariant of the stock tables
-- (`create` and `release` of blocked-stock.kysely-repository.ts, with the trigger).
use vrindavan.Base.{
  ℕ, refl, inl, inr, Option, arith, any, ◌&&◌, find_where, Bool-cases, Option-cases,
}
use vrindavan.Exec.Within.{
  Post, Within, transaction-holds, Within-weaken, Within-bind, Within-then, Within-pure,
}
use vrindavan.Tables.{insert, blocked_stock_entries}
use vrindavan.Db.{Db, Trx, Clock, BalanceRow, gen_random_uuid, BlockedRow}
use vrindavan.Stock.Balances.{CoversHolds}
use vrindavan.Stock.Consistent.{IsConsistent, Keeps, Keeps-preorder}
use vrindavan.Stock.Holds.{IsConsistent-kept, checked-CoversHolds, lifted-CoversHolds}
use vrindavan.Inventory.Document.Laws.{SameStock, IsConsistent-SameStock}
use vrindavan.Inventory.Blocked.{
  CreateBlockedStockProps, blocked_at, hold, unhold, overheld, trg_blocked_inserted,
  trg_blocked_ended, is_blocked_row, insert_blocked, create_blocked, release_blocked,
  blocked_values,
}

unhold-CoversHolds : (q : ℕ) (r : BalanceRow) → CoversHolds r → CoversHolds (unhold q r)
unfolding unhold
unhold-CoversHolds q r c = omega (arith, c)

pub trg_blocked_ended-IsConsistent :
    (r : BlockedRow) (s : Db) → IsConsistent s → IsConsistent (trg_blocked_ended r s).1
unfolding trg_blocked_ended unhold
trg_blocked_ended-IsConsistent r s c =
    IsConsistent-kept (blocked_at r) (unhold r.quantity) (λ b. refl) (λ b. refl) s _ refl refl
      (lifted-CoversHolds (blocked_at r) (unhold r.quantity) (unhold-CoversHolds r.quantity)
        s.stock_balances c.covered)
      c

trg_blocked_inserted-IsConsistent :
    (r : BlockedRow) → Within (Keeps IsConsistent) (trg_blocked_inserted r)
unfolding trg_blocked_inserted hold
trg_blocked_inserted-IsConsistent r = record { at = run }
  where
    run : (s : Db) → Post (Keeps IsConsistent) s (trg_blocked_inserted r s)
    run s =
        elim (Bool-cases
          (any (λ b. blocked_at r b && overheld (hold r.quantity b)) s.stock_balances)) [
            | inl over ↦ rw over tt
            | inr fits ↦ rw fits λ c.
                IsConsistent-kept (blocked_at r) (hold r.quantity) (λ b. refl) (λ b. refl) s _ refl
                  refl
                  (checked-CoversHolds (blocked_at r) (hold r.quantity) s.stock_balances fits
                    c.covered)
                  c
          ]

untouched : {A : Type 0} (m : Trx A) → Within SameStock m → Within (Keeps IsConsistent) m
untouched m h = Within-weaken SameStock (Keeps IsConsistent) m IsConsistent-SameStock h

insert_blocked-IsConsistent :
    (clock : Clock) (props : CreateBlockedStockProps) (by : Option ℕ)
    → Within (Keeps IsConsistent) (insert_blocked clock props by)
unfolding insert_blocked blocked_values
insert_blocked-IsConsistent clock props by =
    let K = Keeps-preorder IsConsistent in
    Within-bind K gen_random_uuid _ (untouched gen_random_uuid (record { at = λ s. (refl, refl) }))
      λ id.
        Within-then K _ _
          (untouched (insert blocked_stock_entries (blocked_values clock props by id))
            (record { at = λ s. (refl, refl) }))
          (Within-then K _ _ (trg_blocked_inserted-IsConsistent (blocked_values clock props by id))
            (Within-pure K (blocked_values clock props by id)))

-- Creating an entry keeps the invariant of the stock tables, whether it returns or throws.
pub create_blocked-IsConsistent :
    (clock : Clock) (props : CreateBlockedStockProps) (by : Option ℕ) (s : Db)
    → IsConsistent s
    → IsConsistent (create_blocked clock props by s).1
unfolding create_blocked
create_blocked-IsConsistent clock props by s =
    transaction-holds (Keeps-preorder IsConsistent) _ s (insert_blocked-IsConsistent clock props by)

-- Releasing an entry keeps the invariant of the stock tables.
pub release_blocked-IsConsistent :
    (clock : Clock) (id : ℕ) (by : Option ℕ) (s : Db)
    → IsConsistent s
    → IsConsistent (release_blocked clock id by s).1
unfolding release_blocked
release_blocked-IsConsistent clock id by s c =
    elim (Option-cases (find_where (is_blocked_row id) s.blocked_stock_entries)) [
      | inl missing ↦ rw (missing, release_blocked) c
      | inr (r, found) ↦
          rw (found, release_blocked)
            (trg_blocked_ended-IsConsistent r _ (IsConsistent-SameStock s _ (refl, refl) c))
    ]
