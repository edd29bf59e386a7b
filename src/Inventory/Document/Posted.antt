-- ===== src/Inventory/Document/Posted.antt =====
-- When a posting returns, by the verdict on it.
use vrindavan.Base.{◌≤◌, ◌≡◌, refl, ◌∙◌, List, [], ◌∷◌, arith, All}
use vrindavan.Exec.{Result, ok, err}
use vrindavan.Exec.Within.{Post, Post-map}
use vrindavan.Db.{Db, Error, Clock, Dims, BalanceRow}
use vrindavan.Stock.Balances.{quantity_at, held_at, CoversHolds}
use vrindavan.Stock.Consistent.{IsConsistent, Keeps, post_stock_movement-IsConsistent}
use vrindavan.Stock.Guard.{Posted, post_stock_movement-Posted}
use vrindavan.Stock.Posting.{PostMovementInput, post_stock_movement}
use vrindavan.Stock.Verdict.{verdict, post_stock_movement-verdict}
use vrindavan.Inventory.Document.Returns.{Returned}

pub held_at-covered :
    (d : Dims) (rows : List BalanceRow) → All CoversHolds rows → held_at d rows ≤ quantity_at d rows
held_at-covered d [] c = omega arith
held_at-covered d (r ∷ rows) c = ground (arith, held_at-covered d rows)

pub settled :
    (s : Db) (r : Result Error (Unit {0}) × Db)
    → r.0 ≡ ok tt
    → Post (Keeps IsConsistent) s r
    → IsConsistent s
    → Returned IsConsistent r
settled s (ok a, t) h k c = (refl, k c)
settled s (err e, t) h k c = absurd (cc h)

-- Consistent stock of which as much is held as in `s`.
abbrev pub HoldsAsIn : Db → Db → Type 0
HoldsAsIn s t =
    IsConsistent t × ((d : Dims) → held_at d t.stock_balances ≡ held_at d s.stock_balances)

held-settled :
    (s t : Db) (r : Result Error (Unit {0}) × Db)
    → r.0 ≡ ok tt
    → Post (λ t u. (d : Dims) → held_at d u.stock_balances ≡ held_at d t.stock_balances) t r
    → Returned IsConsistent r
    → HoldsAsIn s t
    → Returned (HoldsAsIn s) r
held-settled s t (ok a, u) h k c g = (refl, (c.1, λ d. k d ∙ g.1 d))
held-settled s t (err e, u) h k c g = absurd (cc h)

-- A movement that the verdict lets pass returns, and keeps what the invariant says and what is held.
pub post_stock_movement-HoldsAsIn :
    (clock : Clock) (input : PostMovementInput) (s t : Db)
    → verdict input t ≡ ok tt
    → HoldsAsIn s t
    → Returned (HoldsAsIn s) (post_stock_movement clock input t)
post_stock_movement-HoldsAsIn clock input s t passes g =
    let ran = post_stock_movement-verdict clock input t g.0.unique ∙ passes in
    held-settled s t (post_stock_movement clock input t) ran
      (Post-map (Posted clock input)
        (λ t u. (d : Dims) → held_at d u.stock_balances ≡ held_at d t.stock_balances) t t
        (post_stock_movement clock input t) (λ u p. p.1.1.held)
        ((post_stock_movement-Posted clock input).at t))
      (settled t (post_stock_movement clock input t) ran
        ((post_stock_movement-IsConsistent clock input).at t) g.0)
      g
