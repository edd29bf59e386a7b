-- ===== src/Trade/Outstanding.antt =====
-- What is still owed on invoices: v_outstanding_receivables and v_outstanding_payables of
-- database/views/001_reporting_views.sql, and the listings over them
-- (infrastructure/outstanding-{receivable,payable}.kysely-repository.ts of backend/src/modules/sales
-- and purchase).
pub mod Statement
use vrindavan.Base.{
  ℕ, ◌+◌, ◌-◌, ◌<◌, ◌≡◌, arith, Bool, true, ◌&&◌, Option, none, some, List, [], ◌∷◌, All, ltb, ◌==◌,
  find_where, select_where, if◌then◌else◌, inl, inr, Bool-cases,
}
use vrindavan.Db.{Db}
use vrindavan.Trade.Payment.{Billing, is_payable}
use vrindavan.Trade.Payment.Settled.{id_of, allocated, Settled}

-- `GREATEST(current_date - due_date, 0)`, which ignores a NULL.
abbrev pub days_overdue_on : ℕ → Option ℕ → ℕ
days_overdue_on today none = 0
days_overdue_on today (some due) = today - due

-- A view of the unpaid invoices `I` of customers or suppliers `C`, with rows `R`.
pub record View {H A I : Type 0} (b : Billing H A I) (C R : Type 0) : Type 0 where
  pub party_id : C → ℕ
  pub row : ℕ → I → C → R
  pub invoice_in : R → ℕ
  pub party_in : R → ℕ
  pub total_in : R → ℕ
  pub outstanding_in : R → ℕ
  -- What a row of the view says.
  pub invoice_in_row : (today : ℕ) (i : I) (c : C) → invoice_in (row today i c) ≡ b.invoices.id_of i
  pub party_in_row : (today : ℕ) (i : I) (c : C) → party_in (row today i c) ≡ party_id c
  pub total_in_row : (today : ℕ) (i : I) (c : C) → total_in (row today i c) ≡ b.total_of i
  pub outstanding_in_row :
      (today : ℕ) (i : I) (c : C) → outstanding_in (row today i c) ≡ b.total_of i - b.paid_of i

module _ {H A I C R : Type 0} {b : Billing H A I} (v : View b C R) where
  -- `WHERE status IN ('approved','partially_paid') AND total_amount > paid_amount`
  abbrev pub is_outstanding : I → Bool
  is_outstanding i = is_payable (b.status_of i) && ltb (b.paid_of i) (b.total_of i)

  -- `JOIN`: an invoice without its customer or supplier gives no row.
  abbrev pub joined_to : ℕ → I → Option C → List R → List R
  joined_to today i none rest = rest
  joined_to today i (some c) rest = v.row today i c ∷ rest

  abbrev pub outstanding_rows : ℕ → List C → List I → List R
  outstanding_rows today parties [] = []
  outstanding_rows today parties (i ∷ is) =
      let rest = outstanding_rows today parties is in
      if is_outstanding i
      then joined_to today i (find_where (λ c. v.party_id c == b.party_of i) parties) rest
      else rest

  -- `if (filters.customerId) query = query.where(…)`, and so for `supplierId`.
  abbrev pub of_party : Option ℕ → List R → List R
  of_party none rows = rows
  of_party (some id) rows = select_where (λ r. v.party_in r == id) rows

  -- What is owed and what is allocated make up the total, and something is owed.
  abbrev pub Owed : List A → R → Type 0
  Owed allocations r =
      (v.outstanding_in r + allocated b (v.invoice_in r) allocations ≡ v.total_in r)
      × (0 < v.outstanding_in r)

  owed_row :
      (allocations : List A) (today : ℕ) (i : I) (o : Option C) (rest : List R)
      → Settled b allocations i
      → ltb (b.paid_of i) (b.total_of i) ≡ true
      → All (Owed allocations) rest
      → All (Owed allocations) (joined_to today i o rest)
  owed_row allocations today i none rest settled some_left h = h
  owed_row allocations today i (some c) rest settled some_left h =
      rw (v.invoice_in_row today i c, v.total_in_row today i c, v.outstanding_in_row today i c)
        ((ground (arith, settled.0, settled.1), ground arith), h)

  pub owed_rows :
      (allocations : List A) (today : ℕ) (parties : List C) (is : List I)
      → All (Settled b allocations) is
      → All (Owed allocations) (outstanding_rows today parties is)
  owed_rows allocations today parties [] h = tt
  owed_rows allocations today parties (i ∷ is) h =
      let rest = owed_rows allocations today parties is h.1 in
      elim (Bool-cases (is_payable (b.status_of i))) [
        | inr closed ↦ rw closed rest
        | inl open_ ↦ elim (Bool-cases (ltb (b.paid_of i) (b.total_of i))) [
          | inr all_paid ↦ rw (open_, all_paid) rest
          | inl some_left ↦
              rw (open_, some_left)
                (owed_row allocations today i
                  (find_where (λ c. v.party_id c == b.party_of i) parties)
                  (outstanding_rows today parties is) h.0 some_left rest)
        ]
      ]
