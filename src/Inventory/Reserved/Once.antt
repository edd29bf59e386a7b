-- ===== src/Inventory/Reserved/Once.antt =====
-- An entry of reserved stock is released once, and what it holds on the balances
-- (reserved-stock.kysely-repository.ts, with the trigger of database/functions/002_stock_functions.sql).
use vrindavan.Base.{
  ℕ, ◌+◌, ◌≡◌, refl, inl, inr, Bool, Option, none, List, [], ◌∷◌, arith, any, sum_by, ◌==◌, ◌&&◌,
  find_where, update_where, Bool-cases, Option-cases, subst,
}
use vrindavan.Exec.{Result, ok, err}
use vrindavan.Db.{Db, Error, Clock, BalanceRow, ReservedRow, ReservedStatus}
use vrindavan.Stock.Dims.{coalesce}
use vrindavan.Stock.Flow.{when}
use vrindavan.Inventory.Reserved.{
  CreateReservedStockProps, reserved_at, hold, overheld, end_as, is_active_row,
  trg_reserved_inserted, insert_reserved, create_reserved, release_reserved, reserved_values,
}

find-ended :
    (clock : Clock) (id : ℕ) (rows : List ReservedRow)
    → find_where
        (is_active_row id)
        (update_where (is_active_row id) (end_as ReservedStatus.released clock) rows)
      ≡ none
unfolding end_as
find-ended clock id [] = refl
find-ended clock id (r ∷ rows) = ground (arith, find-ended clock id rows)

find-missing :
    (id : ℕ) (s : Db) (clock : Clock)
    → find_where (is_active_row id) s.reserved_stock ≡ none
    → release_reserved clock id s ≡ (ok none, s)
unfolding release_reserved
find-missing id s clock missing = rw (missing, release_reserved) refl

release_reserved-ends :
    (clock : Clock) (id : ℕ) (s : Db)
    → find_where (is_active_row id) (release_reserved clock id s).1.reserved_stock ≡ none
unfolding release_reserved
release_reserved-ends clock id s =
    elim (Option-cases (find_where (is_active_row id) s.reserved_stock)) [
      | inl missing ↦ rw (missing, release_reserved) missing
      | inr (r, found) ↦ rw (found, release_reserved) (find-ended clock id s.reserved_stock)
    ]

-- After a release, whatever it found, the same entry is not released again: a second release
-- returns nothing and changes nothing.
pub release_reserved_twice :
    (clock later : Clock) (id : ℕ) (s : Db)
    → release_reserved later id (release_reserved clock id s).1
      ≡ (ok none, (release_reserved clock id s).1)
release_reserved_twice clock later id s =
    find-missing id (release_reserved clock id s).1 later (release_reserved-ends clock id s)

-- The balances that an entry is counted at: those of its product, warehouse and batch.
abbrev pub counted_at : CreateReservedStockProps → BalanceRow → Bool
counted_at props b =
    b.product_id == props.product_id
    && (b.warehouse_id == props.warehouse_id && coalesce b.batch_id == coalesce props.batch_id)

abbrev pub reserved_total : List BalanceRow → ℕ
reserved_total = sum_by (λ b. b.reserved_quantity)

total-hold :
    (p : BalanceRow → Bool) (q : ℕ) (rows : List BalanceRow)
    → reserved_total (update_where p (hold q) rows)
      ≡ reserved_total rows + sum_by (λ b. when (p b) q) rows
unfolding hold
total-hold p q [] = refl
total-hold p q (r ∷ rows) = ground (arith, total-hold p q rows)

-- A run that returns an entry has added its quantity to every balance that it is counted at.
abbrev Held : (BalanceRow → Bool) → ℕ → List BalanceRow → Result Error ReservedRow × Db → Type 0
Held p q before (ok r, t) =
    reserved_total t.stock_balances ≡ reserved_total before + sum_by (λ b. when (p b) q) before
Held p q before (err e, t) = Unit

insert_reserved-Held :
    (clock : Clock) (props : CreateReservedStockProps) (by : Option ℕ) (s : Db)
    → Held
        (reserved_at (reserved_values clock props by s.next_id))
        props.quantity
        s.stock_balances
        (create_reserved clock props by s)
unfolding create_reserved insert_reserved trg_reserved_inserted reserved_values
insert_reserved-Held clock props by s =
    elim (Bool-cases (
      any
        (λ b.
          reserved_at (reserved_values clock props by s.next_id) b
          && overheld (hold props.quantity b))
        s.stock_balances)) [
          | inl over ↦ rw over tt
          | inr fits ↦ rw fits (
              total-hold (reserved_at (reserved_values clock props by s.next_id)) props.quantity
                s.stock_balances)
        ]

-- What a new entry holds: its quantity is added once for every balance of its product, warehouse
-- and batch, whatever the rack and location of that balance, so that the total that is held grows
-- by the quantity times the number of those balances.
pub create_reserved-total :
    (clock : Clock) (props : CreateReservedStockProps) (by : Option ℕ) (s t : Db) (r : ReservedRow)
    → create_reserved clock props by s ≡ (ok r, t)
    → reserved_total t.stock_balances
      ≡ reserved_total s.stock_balances
        + sum_by (λ b. when (counted_at props b) props.quantity) s.stock_balances
unfolding reserved_at reserved_values
create_reserved-total clock props by s t r returned =
    subst (Held (counted_at props) props.quantity s.stock_balances) returned
      (insert_reserved-Held clock props by s)
