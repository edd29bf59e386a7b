-- ===== src/Stock/Balances.antt =====
-- What the trigger does to the quantity on hand at each dimension.
use vrindavan.Base.{
  ◌≤◌, All, sum_by, ◌==◌, ℕ, ◌+◌, ◌≡◌, ◌≢◌, refl, true, false, ◌&&◌, none, some, List, [], ◌∷◌,
  ◌++◌, arith, any, update_where, if◌then◌else◌,
}
use vrindavan.Db.{Dims, LedgerRow, BalanceRow}
use vrindavan.Stock.Dims.{
  same_dims, same_dims-left, same_dims-right, same_dims_symm, same_dims-product,
}
use vrindavan.Stock.Trigger.{find_balance, violates_check, moved}

abbrev pub quantity_at : Dims → List BalanceRow → ℕ
quantity_at d rows = elim (find_balance d rows) [ none ↦ 0 | some r ↦ r.quantity ]

-- What is reserved and blocked of the stock at `d`.
abbrev pub held_at : Dims → List BalanceRow → ℕ
held_at d rows = elim (find_balance d rows) [
  | none ↦ 0
  | some r ↦ r.reserved_quantity + r.blocked_quantity
]

-- `x`, if the ledger row stands for the stock at `d`.
abbrev pub at_dims : LedgerRow → Dims → ℕ → ℕ
at_dims e d x = if same_dims e.dims d then x else 0

-- The same stock is found under each of its spellings.
pub find_balance-same :
    (a b : Dims) (rows : List BalanceRow)
    → same_dims a b ≡ true
    → find_balance a rows ≡ find_balance b rows
find_balance-same a b [] h = refl
find_balance-same a b (r ∷ rows) h = rw (same_dims-right a b r.dims h, find_balance-same a b rows h)

abbrev pub NoViolation : LedgerRow → List BalanceRow → Type 0
NoViolation e rows = any (λ r. same_dims r.dims e.dims && violates_check e r) rows ≡ false

moved_quantity :
    (e : LedgerRow) (cost : ℕ) (r : BalanceRow)
    → violates_check e r ≡ false
    → (moved e cost r).quantity + e.qty_out ≡ r.quantity + e.qty_in
unfolding violates_check moved
moved_quantity e cost r h = ground arith

pub quantity_at-update :
    (e : LedgerRow) (cost : ℕ) (d : Dims) (rows : List BalanceRow)
    → NoViolation e rows
    → find_balance d rows ≢ none
    → quantity_at d (update_where (λ r. same_dims r.dims e.dims) (moved e cost) rows)
        + at_dims e d e.qty_out
      ≡ quantity_at d rows + at_dims e d e.qty_in
unfolding moved
quantity_at-update e cost d [] ok ne = absurd (ne refl)
quantity_at-update e cost d (r ∷ rows) ok ne = ground (
  arith,
  same_dims-left r.dims d e.dims,
  same_dims_symm d e.dims,
  moved_quantity e cost r,
  quantity_at-update e cost d rows,
)

abbrev append_balance : BalanceRow → List BalanceRow → List BalanceRow
append_balance r rows = rows ++ r ∷ []

pub find_balance-append :
    (d : Dims) (r : BalanceRow) (rows : List BalanceRow)
    → find_balance d (rows ++ r ∷ []) ≡ elim (find_balance d rows) [
      | none ↦ if same_dims r.dims d then some r else none
      | some x ↦ some x
    ]
find_balance-append d r [] = refl
find_balance-append d r (x ∷ rows) = ground (arith, find_balance-append d r rows)

pub find_balance-update :
    (e : LedgerRow) (cost : ℕ) (d : Dims) (rows : List BalanceRow)
    → find_balance d rows ≡ none
    → find_balance d (update_where (λ r. same_dims r.dims e.dims) (moved e cost) rows) ≡ none
unfolding moved
find_balance-update e cost d [] h = refl
find_balance-update e cost d (r ∷ rows) h = ground (arith, find_balance-update e cost d rows)

-- The unique index: no two rows stand for the same stock.
abbrev pub IsUnique : List BalanceRow → Type 0
IsUnique [] = Unit
IsUnique (r ∷ rows) = (find_balance r.dims rows ≡ none) × IsUnique rows

pub IsUnique-update :
    (e : LedgerRow) (cost : ℕ) (rows : List BalanceRow)
    → IsUnique rows
    → IsUnique (update_where (λ r. same_dims r.dims e.dims) (moved e cost) rows)
unfolding moved
IsUnique-update e cost [] u = tt
IsUnique-update e cost (r ∷ rows) u =
    ground (arith, find_balance-update e cost r.dims rows, IsUnique-update e cost rows u.1)

pub IsUnique-append :
    (r : BalanceRow) (rows : List BalanceRow)
    → IsUnique rows
    → find_balance r.dims rows ≡ none
    → IsUnique (rows ++ r ∷ [])
IsUnique-append r [] u h = (refl, tt)
IsUnique-append r (x ∷ rows) u h = ground (
  arith,
  find_balance-append x.dims r rows,
  same_dims_symm x.dims r.dims,
  IsUnique-append r rows u.1,
)

-- The CHECK constraint on held stock.
abbrev pub CoversHolds : BalanceRow → Type 0
CoversHolds r = r.reserved_quantity + r.blocked_quantity ≤ r.quantity

pub CoversHolds-update :
    (e : LedgerRow) (cost : ℕ) (rows : List BalanceRow)
    → NoViolation e rows
    → All CoversHolds rows
    → All CoversHolds (update_where (λ r. same_dims r.dims e.dims) (moved e cost) rows)
unfolding moved violates_check
CoversHolds-update e cost [] ok h = tt
CoversHolds-update e cost (r ∷ rows) ok h = ground (arith, CoversHolds-update e cost rows)

pub CoversHolds-append :
    (r : BalanceRow) (rows : List BalanceRow)
    → CoversHolds r
    → All CoversHolds rows
    → All CoversHolds (rows ++ r ∷ [])
CoversHolds-append r [] c h = (c, tt)
CoversHolds-append r (x ∷ rows) c h = (h.0, CoversHolds-append r rows c h.1)

-- All stock of a product, over every warehouse, rack, location and batch.
abbrev pub product_quantity : ℕ → BalanceRow → ℕ
product_quantity p r = if r.product_id == p then r.quantity else 0

unfoldable pub total_quantity : ℕ → List BalanceRow → ℕ
total_quantity p = sum_by (product_quantity p)

abbrev pub of_product : LedgerRow → ℕ → ℕ → ℕ
of_product e p x = if e.product_id == p then x else 0

total-update_none :
    (e : LedgerRow) (cost p : ℕ) (rows : List BalanceRow)
    → find_balance e.dims rows ≡ none
    → total_quantity p (update_where (λ r. same_dims r.dims e.dims) (moved e cost) rows)
      ≡ total_quantity p rows
unfolding total_quantity
total-update_none e cost p [] h = refl
total-update_none e cost p (r ∷ rows) h = ground (arith, total-update_none e cost p rows)

pub total-update :
    (e : LedgerRow) (cost p : ℕ) (rows : List BalanceRow)
    → NoViolation e rows
    → IsUnique rows
    → find_balance e.dims rows ≢ none
    → total_quantity p (update_where (λ r. same_dims r.dims e.dims) (moved e cost) rows)
        + of_product e p e.qty_out
      ≡ total_quantity p rows + of_product e p e.qty_in
unfolding total_quantity moved
total-update e cost p [] ok u ne = absurd (ne refl)
total-update e cost p (r ∷ rows) ok u ne = ground (
  arith,
  same_dims-product r.dims e.dims,
  find_balance-same r.dims e.dims rows,
  total-update_none e cost p rows,
  moved_quantity e cost r,
  total-update e cost p rows,
)

pub total-append :
    (p : ℕ) (r : BalanceRow) (rows : List BalanceRow)
    → total_quantity p (rows ++ r ∷ []) ≡ total_quantity p rows + product_quantity p r
unfolding total_quantity
total-append p r [] = ground arith
total-append p r (x ∷ rows) = ground (arith, total-append p r rows)

-- A movement holds nothing and lets nothing go.
pub held_at-update :
    (e : LedgerRow) (cost : ℕ) (d : Dims) (rows : List BalanceRow)
    → held_at d (update_where (λ r. same_dims r.dims e.dims) (moved e cost) rows) ≡ held_at d rows
unfolding moved
held_at-update e cost d [] = refl
held_at-update e cost d (r ∷ rows) = ground (arith, held_at-update e cost d rows)

pub held_at-append :
    (d : Dims) (r : BalanceRow) (rows : List BalanceRow)
    → r.reserved_quantity + r.blocked_quantity ≡ 0
    → held_at d (rows ++ r ∷ []) ≡ held_at d rows
held_at-append d r [] h = ground (arith, h)
held_at-append d r (x ∷ rows) h = ground (arith, held_at-append d r rows h)
