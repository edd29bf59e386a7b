-- ===== src/Inventory/Reserved/Holds.antt =====
-- Every operation on reserved stock keeps the invariant of the stock tables
-- (`create` and `release` of reserved-stock.kysely-repository.ts, with the trigger).
use vrindavan.Base.{
  ℕ, refl, inl, inr, Option, arith, any, ◌&&◌, find_where, select_where, length, Bool-cases,
  Option-cases,
}
use vrindavan.Exec.{for_each, pure, ◌>>◌}
use vrindavan.Exec.Within.{
  Post, Within, transaction-holds, Within-weaken, Within-bind, Within-then, Within-pure,
  Within-for_each,
}
use vrindavan.Tables.{insert, update_all, reserved_stock}
use vrindavan.Db.{Db, Trx, Clock, BalanceRow, gen_random_uuid, ReservedRow, ReservedStatus}
use vrindavan.Stock.Balances.{CoversHolds}
use vrindavan.Stock.Consistent.{IsConsistent, Keeps, Keeps-preorder}
use vrindavan.Stock.Holds.{IsConsistent-kept, checked-CoversHolds, lifted-CoversHolds}
use vrindavan.Inventory.Document.Laws.{SameStock, IsConsistent-SameStock}
use vrindavan.Inventory.Reserved.{
  CreateReservedStockProps, reserved_at, hold, unhold, overheld, trg_reserved_inserted,
  trg_reserved_ended, is_active_row, is_overdue, end_as, release_expired,
  fn_release_expired_reservations, insert_reserved, create_reserved, release_reserved,
  reserved_values,
}

unhold-CoversHolds : (q : ℕ) (r : BalanceRow) → CoversHolds r → CoversHolds (unhold q r)
unfolding unhold
unhold-CoversHolds q r c = omega (arith, c)

pub trg_reserved_ended-IsConsistent :
    (r : ReservedRow) (s : Db) → IsConsistent s → IsConsistent (trg_reserved_ended r s).1
unfolding trg_reserved_ended unhold
trg_reserved_ended-IsConsistent r s c =
    IsConsistent-kept (reserved_at r) (unhold r.quantity) (λ b. refl) (λ b. refl) s _ refl refl
      (lifted-CoversHolds (reserved_at r) (unhold r.quantity) (unhold-CoversHolds r.quantity)
        s.stock_balances c.covered)
      c

trg_reserved_inserted-IsConsistent :
    (r : ReservedRow) → Within (Keeps IsConsistent) (trg_reserved_inserted r)
unfolding trg_reserved_inserted hold
trg_reserved_inserted-IsConsistent r = record { at = run }
  where
    run : (s : Db) → Post (Keeps IsConsistent) s (trg_reserved_inserted r s)
    run s =
        elim (Bool-cases
          (any (λ b. reserved_at r b && overheld (hold r.quantity b)) s.stock_balances)) [
            | inl over ↦ rw over tt
            | inr fits ↦ rw fits λ c.
                IsConsistent-kept (reserved_at r) (hold r.quantity) (λ b. refl) (λ b. refl) s _ refl
                  refl
                  (checked-CoversHolds (reserved_at r) (hold r.quantity) s.stock_balances fits
                    c.covered)
                  c
          ]

untouched : {A : Type 0} (m : Trx A) → Within SameStock m → Within (Keeps IsConsistent) m
untouched m h = Within-weaken SameStock (Keeps IsConsistent) m IsConsistent-SameStock h

insert_reserved-IsConsistent :
    (clock : Clock) (props : CreateReservedStockProps) (by : Option ℕ)
    → Within (Keeps IsConsistent) (insert_reserved clock props by)
unfolding insert_reserved reserved_values
insert_reserved-IsConsistent clock props by =
    let K = Keeps-preorder IsConsistent in
    Within-bind K gen_random_uuid _ (untouched gen_random_uuid (record { at = λ s. (refl, refl) }))
      λ id.
        Within-then K _ _
          (untouched (insert reserved_stock (reserved_values clock props by id))
            (record { at = λ s. (refl, refl) }))
          (Within-then K _ _
            (trg_reserved_inserted-IsConsistent (reserved_values clock props by id))
            (Within-pure K (reserved_values clock props by id)))

-- Creating an entry keeps the invariant of the stock tables, whether it returns or throws.
pub create_reserved-IsConsistent :
    (clock : Clock) (props : CreateReservedStockProps) (by : Option ℕ) (s : Db)
    → IsConsistent s
    → IsConsistent (create_reserved clock props by s).1
unfolding create_reserved
create_reserved-IsConsistent clock props by s =
    transaction-holds (Keeps-preorder IsConsistent) _ s
      (insert_reserved-IsConsistent clock props by)

-- Releasing an entry keeps the invariant of the stock tables.
pub release_reserved-IsConsistent :
    (clock : Clock) (id : ℕ) (s : Db)
    → IsConsistent s
    → IsConsistent (release_reserved clock id s).1
unfolding release_reserved
release_reserved-IsConsistent clock id s c =
    elim (Option-cases (find_where (is_active_row id) s.reserved_stock)) [
      | inl missing ↦ rw (missing, release_reserved) c
      | inr (r, found) ↦
          rw (found, release_reserved)
            (trg_reserved_ended-IsConsistent r _ (IsConsistent-SameStock s _ (refl, refl) c))
    ]

release_expired-IsConsistent : (clock : Clock) → Within (Keeps IsConsistent) (release_expired clock)
unfolding release_expired
release_expired-IsConsistent clock = record { at = run }
  where
    run : (s : Db) → Post (Keeps IsConsistent) s (release_expired clock s)
    run s =
        let K = Keeps-preorder IsConsistent in
        let overdue = select_where (is_overdue clock) s.reserved_stock in
        let expire =
          update_all reserved_stock (is_overdue clock) (end_as ReservedStatus.expired clock) in
        let release = for_each overdue trg_reserved_ended in
        (Within-then K expire (release >> pure (length overdue))
            (untouched expire (record { at = λ s. (refl, refl) }))
            (Within-then K release (pure (length overdue))
              (Within-for_each K overdue trg_reserved_ended
                (λ r. record { at = trg_reserved_ended-IsConsistent r }))
              (Within-pure K (length overdue)))).at
          s

-- Expiring the overdue reservations keeps the invariant of the stock tables.
pub fn_release_expired_reservations-IsConsistent :
    (clock : Clock) (s : Db)
    → IsConsistent s
    → IsConsistent (fn_release_expired_reservations clock s).1
unfolding fn_release_expired_reservations
fn_release_expired_reservations-IsConsistent clock s =
    transaction-holds (Keeps-preorder IsConsistent) _ s (release_expired-IsConsistent clock)
