-- ===== src/Trade/Payment/Laws/Later.antt =====
-- Invoices and allocations that are left alone stay settled while ids are drawn.
use vrindavan.Base.{ℕ, ◌≡◌, ◌≤◌, ◌<◌, refl, arith, List, [], ◌∷◌, All}
use vrindavan.Db.{Db}
use vrindavan.Stock.Consistent.{Keeps}
use vrindavan.Inventory.Document.Spares.{Spares}
use vrindavan.Trade.Payment.{Billing}
use vrindavan.Trade.Payment.Settled.{IsSettledIn, id_of}
use vrindavan.Trade.Payment.Laws.{IsSettled, along}

below-later :
    {R : Type 0} (f : R → ℕ) (n m : ℕ) (xs : List R)
    → n ≤ m
    → All (λ x. f x < n) xs
    → All (λ x. f x < m) xs
below-later f n m [] le h = tt
below-later f n m (x ∷ xs) le h = (omega (arith, le, h.0), below-later f n m xs le h.1)

module _ {H A I : Type 0} (b : Billing H A I) where
  later-IsSettledIn :
      (n m : ℕ) (is : List I) (xs : List A) → n ≤ m → IsSettledIn b n is xs → IsSettledIn b m is xs
  later-IsSettledIn n m is xs le h = record {
    numbered = below-later (id_of b) n m is le h.numbered;
    unique = h.unique;
    settled = h.settled;
    referenced = below-later b.invoice_of n m xs le h.referenced;
  }

  module _ {X : Type 0} (part : Db → X)
      (reads : (s t : Db)
        → part t ≡ part s
        → (b.invoices.rows t ≡ b.invoices.rows s)
          × (b.payments.line_rows.rows t ≡ b.payments.line_rows.rows s)) where
    pub spared-IsSettled : (s t : Db) → Spares part s t → Keeps (IsSettled b) s t
    spared-IsSettled s t spares h =
        along b t.next_id t.next_id _ _ _ _ refl (reads s t spares.0).0 (reads s t spares.0).1
          (later-IsSettledIn s.next_id t.next_id _ _ spares.1 h)
