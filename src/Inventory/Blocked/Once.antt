-- ===== src/Inventory/Blocked/Once.antt =====
-- An entry of blocked stock is released once, and what it holds on the balances
-- (blocked-stock.kysely-repository.ts, with the trigger of database/functions/002_stock_functions.sql).
use vrindavan.Base.{
  ℕ, ◌+◌, ◌≡◌, refl, inl, inr, Bool, Option, none, List, [], ◌∷◌, arith, any, sum_by, ◌==◌, ◌&&◌,
  find_where, update_where, Bool-cases, Option-cases, subst,
}
use vrindavan.Exec.{Result, ok, err}
use vrindavan.Db.{Db, Error, Clock, BalanceRow, BlockedRow}
use vrindavan.Stock.Dims.{coalesce}
use vrindavan.Stock.Flow.{when}
use vrindavan.Inventory.Blocked.{
  CreateBlockedStockProps, blocked_at, hold, overheld, lift, is_blocked_row, trg_blocked_inserted,
  insert_blocked, create_blocked, release_blocked, blocked_values,
}

find-ended :
    (clock : Clock) (id : ℕ) (by : Option ℕ) (rows : List BlockedRow)
    → find_where (is_blocked_row id) (update_where (is_blocked_row id) (lift clock by) rows) ≡ none
unfolding lift
find-ended clock id by [] = refl
find-ended clock id by (r ∷ rows) = ground (arith, find-ended clock id by rows)

find-missing :
    (id : ℕ) (s : Db) (clock : Clock) (by : Option ℕ)
    → find_where (is_blocked_row id) s.blocked_stock_entries ≡ none
    → release_blocked clock id by s ≡ (ok none, s)
unfolding release_blocked
find-missing id s clock by missing = rw (missing, release_blocked) refl

release_blocked-ends :
    (clock : Clock) (id : ℕ) (by : Option ℕ) (s : Db)
    → find_where (is_blocked_row id) (release_blocked clock id by s).1.blocked_stock_entries ≡ none
unfolding release_blocked
release_blocked-ends clock id by s =
    elim (Option-cases (find_where (is_blocked_row id) s.blocked_stock_entries)) [
      | inl missing ↦ rw (missing, release_blocked) missing
      | inr (r, found) ↦
          rw (found, release_blocked) (find-ended clock id by s.blocked_stock_entries)
    ]

-- After a release, whatever it found, the same entry is not released again: a second release
-- returns nothing and changes nothing.
pub release_blocked_twice :
    (clock later : Clock) (id : ℕ) (by by' : Option ℕ) (s : Db)
    → release_blocked later id by' (release_blocked clock id by s).1
      ≡ (ok none, (release_blocked clock id by s).1)
release_blocked_twice clock later id by by' s =
    find-missing id (release_blocked clock id by s).1 later by' (release_blocked-ends clock id by s)

-- The balances that an entry is counted at: those of its product, warehouse and batch.
abbrev pub counted_at : CreateBlockedStockProps → BalanceRow → Bool
counted_at props b =
    b.product_id == props.product_id
    && (b.warehouse_id == props.warehouse_id && coalesce b.batch_id == coalesce props.batch_id)

abbrev pub blocked_total : List BalanceRow → ℕ
blocked_total = sum_by (λ b. b.blocked_quantity)

total-hold :
    (p : BalanceRow → Bool) (q : ℕ) (rows : List BalanceRow)
    → blocked_total (update_where p (hold q) rows)
      ≡ blocked_total rows + sum_by (λ b. when (p b) q) rows
unfolding hold
total-hold p q [] = refl
total-hold p q (r ∷ rows) = ground (arith, total-hold p q rows)

-- A run that returns an entry has added its quantity to every balance that it is counted at.
abbrev Held : (BalanceRow → Bool) → ℕ → List BalanceRow → Result Error BlockedRow × Db → Type 0
Held p q before (ok r, t) =
    blocked_total t.stock_balances ≡ blocked_total before + sum_by (λ b. when (p b) q) before
Held p q before (err e, t) = Unit

insert_blocked-Held :
    (clock : Clock) (props : CreateBlockedStockProps) (by : Option ℕ) (s : Db)
    → Held
        (blocked_at (blocked_values clock props by s.next_id))
        props.quantity
        s.stock_balances
        (create_blocked clock props by s)
unfolding create_blocked insert_blocked trg_blocked_inserted blocked_values
insert_blocked-Held clock props by s =
    elim (Bool-cases (
      any
        (λ b.
          blocked_at (blocked_values clock props by s.next_id) b
          && overheld (hold props.quantity b))
        s.stock_balances)) [
          | inl over ↦ rw over tt
          | inr fits ↦ rw fits (
              total-hold (blocked_at (blocked_values clock props by s.next_id)) props.quantity
                s.stock_balances)
        ]

-- What a new entry holds: its quantity is added once for every balance of its product, warehouse
-- and batch, whatever the rack and location of that balance, so that the total that is held grows
-- by the quantity times the number of those balances.
pub create_blocked-total :
    (clock : Clock) (props : CreateBlockedStockProps) (by : Option ℕ) (s t : Db) (r : BlockedRow)
    → create_blocked clock props by s ≡ (ok r, t)
    → blocked_total t.stock_balances
      ≡ blocked_total s.stock_balances
        + sum_by (λ b. when (counted_at props b) props.quantity) s.stock_balances
unfolding blocked_at blocked_values
create_blocked-total clock props by s t r returned =
    subst (Held (counted_at props) props.quantity s.stock_balances) returned
      (insert_blocked-Held clock props by s)
