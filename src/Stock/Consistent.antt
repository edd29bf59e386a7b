-- ===== src/Stock/Consistent.antt =====
-- The invariant of the stock tables: balances agree with the ledger, are keyed uniquely, and
-- cover what is held. Every movement that `postStockMovement` posts keeps it.
use vrindavan.Base.{ℕ, ◌+◌, ◌≡◌, List, [], ◌∷◌, arith, All, sum_by, sum_by-append}
use vrindavan.Exec.Within.{Within, IsPreorder, Post-map}
use vrindavan.Db.{Db, Clock, Dims, LedgerRow}
use vrindavan.Stock.Balances.{quantity_at, at_dims, IsUnique, CoversHolds}
use vrindavan.Stock.Guard.{Posted, post_stock_movement-Posted}
use vrindavan.Stock.Movement.{Posts}
use vrindavan.Stock.Posting.{PostMovementInput, ledger_row, post_stock_movement}

abbrev pub ledger_in : Dims → List LedgerRow → ℕ
ledger_in d = sum_by (λ e. at_dims e d e.qty_in)

abbrev pub ledger_out : Dims → List LedgerRow → ℕ
ledger_out d = sum_by (λ e. at_dims e d e.qty_out)

pub record IsConsistent (db : Db) : Type 0 where
  -- Current stock is what the ledger adds up to.
  pub derivable :
      (d : Dims)
      → quantity_at d db.stock_balances + ledger_out d db.stock_ledger ≡ ledger_in d db.stock_ledger
  pub unique : IsUnique db.stock_balances
  pub covered : All CoversHolds db.stock_balances

abbrev pub Keeps : (Db → Type 0) → Db → Db → Type 0
Keeps P s t = P s → P t

pub Keeps-preorder : (P : Db → Type 0) → IsPreorder (Keeps P)
Keeps-preorder P = record { rfl = λ s h. h; trans = λ s t u f g h. g (f h) }

pub Posts-IsConsistent : (e : LedgerRow) (s t : Db) → Posts e s t → IsConsistent s → IsConsistent t
Posts-IsConsistent e s t (l, m) c = record {
  derivable = λ d. rw l (
      omega (
        arith,
        m.on_hand d,
        c.derivable d,
        sum_by-append (λ (e : LedgerRow). at_dims e d e.qty_in) s.stock_ledger (e ∷ []),
        sum_by-append (λ (e : LedgerRow). at_dims e d e.qty_out) s.stock_ledger (e ∷ []),
      ));
  unique = m.unique c.unique;
  covered = m.covered c.covered;
}

pub post_stock_movement-IsConsistent :
    (clock : Clock) (input : PostMovementInput)
    → Within (Keeps IsConsistent) (post_stock_movement clock input)
post_stock_movement-IsConsistent clock input = record {
  at = λ s.
      Post-map (Posted clock input) (Keeps IsConsistent) s s (post_stock_movement clock input s)
        (λ t p c. Posts-IsConsistent (ledger_row clock input s.next_id) s t p.1 c)
        ((post_stock_movement-Posted clock input).at s);
}
