-- ===== src/Stock/Refusal.antt =====
-- Which exceptions `postStockMovement` throws: `InsufficientStockError`, and only where less is on
-- hand than the movement takes out, or the database's refusal of a balance.
use vrindavan.Base.{
  ℕ, ◌≤◌, ◌≡◌, inl, inr, Bool, true, false, arith, get_or, Bool-cases, ltb, ltb→lt, ltb→le, ◌||◌,
  String,
}
use vrindavan.Exec.{Result, ok, err}
use vrindavan.Exec.Raises.{Raised, Raises}
use vrindavan.Db.{
  Db, Error, Clock, LedgerRow, insufficient_stock, check_violation, unique_violation,
  foreign_key_violation, no_result,
}
use vrindavan.Stock.Balances.{quantity_at}
use vrindavan.Stock.Guard.{post_stock_movement-short, post_stock_movement-enough}
use vrindavan.Stock.Posting.{PostMovementInput, insert_ledger, post_stock_movement}

-- The exceptions of the database itself, which no code of the module catches.
abbrev pub is_storage : Error → Bool
is_storage check_violation = true
is_storage unique_violation = true
is_storage foreign_key_violation = true
is_storage no_result = true
is_storage _ = false

abbrev pub is_insufficient : Error → Bool
is_insufficient (insufficient_stock name available required) = true
is_insufficient _ = false

abbrev pub IsStorage : Error → Type 0
IsStorage e = is_storage e ≡ true

insert_ledger-IsStorage : (e : LedgerRow) (s : Db) → Raised IsStorage (insert_ledger e s)
unfolding insert_ledger
insert_ledger-IsStorage e s = ground arith

pub post_stock_movement-IsStorage :
    (clock : Clock) (input : PostMovementInput) (s : Db)
    → get_or input.qty_out 0 ≤ quantity_at input.dims s.stock_balances
    → Raised IsStorage (post_stock_movement clock input s)
post_stock_movement-IsStorage clock input s enough =
    rw (post_stock_movement-enough clock input s enough) (insert_ledger-IsStorage _ _)

-- Every exception that a posting may throw.
abbrev pub is_movement_error : Error → Bool
is_movement_error e = is_insufficient e || is_storage e

-- Storage errors are among those that a predicate allows.
module _ (P : Error → Type 0) (storage : (e : Error) → IsStorage e → P e) where
  allow : {A : Type 0} (r : Result Error A × Db) → Raised IsStorage r → Raised P r
  allow (ok a, s) h = tt
  allow (err e, s) h = storage e h

  -- With enough on hand, only the database refuses.
  pub post_stock_movement-enough_raises :
      (clock : Clock) (input : PostMovementInput) (s : Db)
      → get_or input.qty_out 0 ≤ quantity_at input.dims s.stock_balances
      → Raised P (post_stock_movement clock input s)
  post_stock_movement-enough_raises clock input s enough =
      allow (post_stock_movement clock input s) (post_stock_movement-IsStorage clock input s enough)

  pub post_stock_movement-Raises :
      ((name : String) (available required : ℕ) → P (insufficient_stock name available required))
      → (clock : Clock) (input : PostMovementInput) → Raises P (post_stock_movement clock input)
  post_stock_movement-Raises short clock input = record { at = run }
    where
      run : (s : Db) → Raised P (post_stock_movement clock input s)
      run s =
          elim (Bool-cases
            (ltb (quantity_at input.dims s.stock_balances) (get_or input.qty_out 0))) [
              | inl less ↦
                  rw (post_stock_movement-short clock input s (ltb→lt _ _ less)) (short _ _ _)
              | inr enough ↦ post_stock_movement-enough_raises clock input s (ltb→le _ _ enough)
            ]
