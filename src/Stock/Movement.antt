-- ===== src/Stock/Movement.antt =====
-- What one ledger row does to the balances: the trigger's effect, and that of `postStockMovement`.
use vrindavan.Base.{
  ℕ, ◌+◌, ◌≡◌, ◌≢◌, refl, ap, inl, inr, ◌&&◌, none, List, [], ◌∷◌, ◌++◌, arith, any, All, ltb,
  update_where, Bool-cases, Option-cases,
}
use vrindavan.Exec.Within.{Post, Within}
use vrindavan.Db.{Db, Dims, LedgerRow, BalanceRow}
use vrindavan.Stock.Dims.{same_dims}
use vrindavan.Stock.Trigger.{
  find_balance, violates_check, moved, update_balances, insert_balance, update_or_insert,
  trg_stock_ledger_to_balance,
}
use vrindavan.Stock.Balances.{
  quantity_at, at_dims, find_balance-same, find_balance-append, NoViolation, quantity_at-update,
  IsUnique, IsUnique-update, IsUnique-append, CoversHolds, CoversHolds-update, CoversHolds-append,
  held_at, held_at-update, held_at-append, total_quantity, of_product, total-update, total-append,
  find_balance-update,
}
use vrindavan.Stock.Posting.{is_one_way, insert_ledger}

-- The balances before and after a ledger row: on hand at each dimension `qty_in` comes and
-- `qty_out` goes, so too in the total of each product, and the table's constraints still hold.
pub record Moves (e : LedgerRow) (s t : List BalanceRow) : Type 0 where
  pub on_hand :
      (d : Dims) → quantity_at d t + at_dims e d e.qty_out ≡ quantity_at d s + at_dims e d e.qty_in
  pub unique : IsUnique s → IsUnique t
  pub covered : All CoversHolds s → All CoversHolds t
  pub held : (d : Dims) → held_at d t ≡ held_at d s
  pub total :
      (p : ℕ)
      → IsUnique s
      → total_quantity p t + of_product e p e.qty_out ≡ total_quantity p s + of_product e p e.qty_in

abbrev pub TriggerMoves : LedgerRow → Db → Db → Type 0
TriggerMoves e s t = (t.stock_ledger ≡ s.stock_ledger) × Moves e s.stock_balances t.stock_balances

update-Moves :
    (e : LedgerRow) (cost : ℕ) (rows : List BalanceRow)
    → NoViolation e rows
    → find_balance e.dims rows ≢ none
    → Moves e rows (update_where (λ r. same_dims r.dims e.dims) (moved e cost) rows)
update-Moves e cost rows ok ne = record {
  on_hand = λ d. ground (
    arith,
    find_balance-same e.dims d rows,
    find_balance-update e cost d rows,
    quantity_at-update e cost d rows,
  );
  unique = IsUnique-update e cost rows;
  covered = CoversHolds-update e cost rows ok;
  held = λ d. held_at-update e cost d rows;
  total = λ p u. total-update e cost p rows ok u ne;
}

append-Moves :
    (e : LedgerRow) (r : BalanceRow) (rows : List BalanceRow)
    → r.dims ≡ e.dims
    → r.quantity + e.qty_out ≡ e.qty_in
    → CoversHolds r
    → r.reserved_quantity + r.blocked_quantity ≡ 0
    → find_balance e.dims rows ≡ none
    → Moves e rows (rows ++ r ∷ [])
append-Moves e r rows de q c z h = record {
  on_hand = λ d. ground (
    arith,
    find_balance-append d r rows,
    find_balance-same e.dims d rows,
    ap (λ x. same_dims x d) de,
  );
  unique = λ u. IsUnique-append r rows u (rw de h);
  covered = CoversHolds-append r rows c;
  held = λ d. held_at-append d r rows z;
  total = λ p u. ground (arith, total-append p r rows, ap (λ x. x.product_id) de);
}

update-TriggerMoves :
    (e : LedgerRow) (cost : ℕ) (s : Db)
    → find_balance e.dims s.stock_balances ≢ none
    → Post (TriggerMoves e) s (update_balances e cost s)
unfolding update_balances
update-TriggerMoves e cost s ne =
    elim (Bool-cases (any (λ r. same_dims r.dims e.dims && violates_check e r) s.stock_balances)) [
      | inl bad ↦ rw bad tt
      | inr good ↦ rw good (refl, update-Moves e cost s.stock_balances good ne)
    ]

insert-TriggerMoves :
    (e : LedgerRow) (cost : ℕ) (s : Db)
    → find_balance e.dims s.stock_balances ≡ none
    → Post (TriggerMoves e) s (insert_balance e cost s)
unfolding insert_balance
insert-TriggerMoves e cost s h = elim (Bool-cases (ltb e.qty_in e.qty_out)) [
  | inl bad ↦ rw bad tt
  | inr good ↦
      rw good
        (refl, append-Moves e _ s.stock_balances refl (ground arith) (ground arith) (omega arith) h)
]

pub trigger-TriggerMoves : (e : LedgerRow) → Within (TriggerMoves e) (trg_stock_ledger_to_balance e)
unfolding trg_stock_ledger_to_balance
trigger-TriggerMoves e = record {
  at = λ s. elim (Option-cases (find_balance e.dims s.stock_balances)) [
    | inl fresh ↦ rw (fresh, update_or_insert) (insert-TriggerMoves e _ s fresh)
    | inr (r, old) ↦
        rw (old, update_or_insert) (update-TriggerMoves e _ s (λ none_. cc (none_, old)))
  ];
}

-- The row itself is on the ledger, and the balances have moved by it.
abbrev pub Posts : LedgerRow → Db → Db → Type 0
Posts e s t =
    (t.stock_ledger ≡ s.stock_ledger ++ e ∷ []) × Moves e s.stock_balances t.stock_balances

pub insert_ledger-Posts : (e : LedgerRow) → Within (Posts e) (insert_ledger e)
unfolding insert_ledger
insert_ledger-Posts e = record {
  at = λ s. elim (Bool-cases (is_one_way e)) [
    | inr refused ↦ rw refused tt
    | inl allowed ↦
        rw allowed
          ((trigger-TriggerMoves e).at (record s { stock_ledger = s.stock_ledger ++ e ∷ [] }))
  ];
}
