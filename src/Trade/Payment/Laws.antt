-- ===== src/Trade/Payment/Laws.antt =====
-- An allocation, with every guard of it, keeps the invoices settled.
pub mod Calls
pub mod Later
use vrindavan.Base.{
  ℕ, suc, ◌+◌, ◌-◌, ◌≡◌, ◌∙◌, ap, arith, Bool, true, false, inl, inr, some, none, List, [], ◌∷◌,
  ◌++◌, any, not, find_where, ltb, ◌==◌, update_where, Bool-cases, Option-cases, subst, sym, String,
}
use vrindavan.Exec.{Result, ok, err}
use vrindavan.Exec.Within.{
  Within, Post, IsPreorder, Within-bind, Within-pure, Within-map_each, transaction-holds,
}
use vrindavan.Db.{Db, Error, Clock, DocumentType, InvoiceStatus}
use vrindavan.Tables.{has_id}
use vrindavan.Stock.Consistent.{Keeps, Keeps-preorder}
use vrindavan.Numbering.{next_document_number}
use vrindavan.Inventory.Document.{to_domain, insert_row}
use vrindavan.Inventory.Document.RoundTrip.{
  with_sequences, drawn, Yield, next_document_number-sequences,
}
use vrindavan.Trade.Payment.{
  Billing, CreateAllocationProps, is_target, status_after, exceeds, allocate, record_payment,
}
use vrindavan.Trade.Payment.Settled.{IsSettledIn, IsBilling, pays-IsSettledIn}
use vrindavan.Trade.Payment.Settled.Changes.{drawn-IsSettledIn}

module _ {H A I : Type 0} (b : Billing H A I) where
  abbrev pub IsSettled : Db → Type 0
  IsSettled s = IsSettledIn b s.next_id (b.invoices.rows s) (b.payments.line_rows.rows s)

  abbrev pub SameBilling : Db → Db → Type 0
  SameBilling s t =
      (t.next_id ≡ s.next_id)
      × (b.invoices.rows t ≡ b.invoices.rows s)
      × (b.payments.line_rows.rows t ≡ b.payments.line_rows.rows s)

  -- After the row of an allocation is inserted.
  abbrev allocated_to : H → CreateAllocationProps → Db → Db
  allocated_to header props s =
      b.payments.line_rows.put
        (b.payments.line_rows.rows (drawn s) ++ b.new_allocation header props s.next_id ∷ [])
        (drawn s)

  -- The tables of invoices, payments and allocations are apart.
  pub record IsApart : Type 0 where
    pub headers-put : (xs : List H) (db : Db) → SameBilling db (b.payments.headers.put xs db)
    pub sequences : (s t : Db) → SameBilling s (with_sequences s t)
    pub invoices-put :
        (xs : List I) (db : Db)
        → ((b.invoices.put xs db).next_id ≡ db.next_id)
          × (b.invoices.rows (b.invoices.put xs db) ≡ xs)
          × (b.payments.line_rows.rows (b.invoices.put xs db) ≡ b.payments.line_rows.rows db)
    pub allocations-put :
        (xs : List A) (db : Db)
        → ((b.payments.line_rows.put xs db).next_id ≡ db.next_id)
          × (b.invoices.rows (b.payments.line_rows.put xs db) ≡ b.invoices.rows db)
          × (b.payments.line_rows.rows (b.payments.line_rows.put xs db) ≡ xs)
    pub drawn-rows :
        (s : Db)
        → (b.invoices.rows (drawn s) ≡ b.invoices.rows s)
          × (b.payments.line_rows.rows (drawn s) ≡ b.payments.line_rows.rows s)

  pub along :
      (n m : ℕ) (is js : List I) (xs ys : List A)
      → m ≡ n
      → js ≡ is
      → ys ≡ xs
      → IsSettledIn b n is xs
      → IsSettledIn b m js ys
  along n m is js xs ys e f g h =
      subst (λ k. IsSettledIn b k js ys) (sym e)
        (subst (λ k. IsSettledIn b n k ys) (sym f) (subst (λ k. IsSettledIn b n is k) (sym g) h))

  pub IsSettled-same : (s t : Db) → SameBilling s t → IsSettled s → IsSettled t
  IsSettled-same s t (n, i, x) h = along _ _ _ _ _ _ n i x h

  module _ (apart : IsApart) (laws : IsBilling b) where
    numbered :
        {B : Type 0} (s : Db) (r : Result Error B × Db)
        → Yield (λ n u. u ≡ with_sequences s u) r
        → Post (Keeps IsSettled) s r
    numbered s (ok n, u) e =
        λ h. subst IsSettled (sym e) (IsSettled-same s _ (apart.sequences s u) h)
    numbered s (err x, u) e = tt

    pub next_document_number-IsSettled :
        (t : DocumentType) (prefix : String)
        → Within (Keeps IsSettled) (next_document_number t prefix)
    next_document_number-IsSettled t prefix = record {
      at = λ s. numbered s _ (next_document_number-sequences t prefix s);
    }

    paid-IsSettled :
        (clock : Clock) (header : H) (props : CreateAllocationProps) (i : I)
        (status : InvoiceStatus) (s : Db)
        → find_where (has_id b.invoices props.invoice_id) (b.invoices.rows s) ≡ some i
        → ltb (b.total_of i - b.paid_of i) props.allocated_amount ≡ false
        → any (is_target b props.invoice_id) (b.invoices.rows (allocated_to header props s)) ≡ true
        → IsSettled s
        → IsSettled (
            b.invoices.put
              (update_where
                (is_target b props.invoice_id)
                (b.pay clock (b.paid_of i + props.allocated_amount) status)
                (b.invoices.rows (allocated_to header props s)))
              (allocated_to header props s))
    paid-IsSettled clock header props i status s found within target h =
        let put =
          apart.allocations-put
            (b.payments.line_rows.rows (drawn s) ++ b.new_allocation header props s.next_id ∷ [])
            (drawn s) in
        let paid =
          apart.invoices-put
            (update_where (is_target b props.invoice_id)
              (b.pay clock (b.paid_of i + props.allocated_amount) status)
              (b.invoices.rows (allocated_to header props s)))
            (allocated_to header props s) in
        let same = put.1 ∙ (apart.drawn-rows s).0 in
        along _ _ _ _ _ _ (paid.0 ∙ put.0)
          (paid.1
            ∙ ap
                (update_where (is_target b props.invoice_id)
                  (b.pay clock (b.paid_of i + props.allocated_amount) status))
                same)
          (paid.2
            ∙ put.2
            ∙ ap (λ xs. xs ++ b.new_allocation header props s.next_id ∷ []) (apart.drawn-rows s).1)
          (pays-IsSettledIn b laws clock props.invoice_id props.allocated_amount
            (b.new_allocation header props s.next_id) (laws.invoice-new header props s.next_id)
            (laws.amount-new header props s.next_id) s.next_id i status (b.invoices.rows s)
            (b.payments.line_rows.rows s) found
            (ap (any (is_target b props.invoice_id)) (sym same) ∙ target) within h)

    under_lem :
        (total paid amount : ℕ)
        → ltb total (paid + amount) ≡ false
        → ltb (total - paid) amount ≡ false
    under_lem total paid amount under = ground arith

    pub allocate-IsSettled :
        (clock : Clock) (party : ℕ) (header : H) (props : CreateAllocationProps)
        → Within (Keeps IsSettled) (allocate b clock party header props)
    unfolding allocate
    allocate-IsSettled clock party header props = record { at = run }
      where
        run : (s : Db) → Post (Keeps IsSettled) s (allocate b clock party header props s)
        run s =
            elim (Option-cases
              (find_where (has_id b.invoices props.invoice_id) (b.invoices.rows s))) [
                | inl missing ↦ rw missing tt
                | inr (i, found) ↦ elim (Bool-cases (b.party_of i == party)) [
                  | inr another ↦ rw (found, another) tt
                  | inl theirs ↦ elim (Bool-cases (exceeds b props.allocated_amount i)) [
                    | inl over ↦ rw (found, theirs, over) tt
                    | inr within ↦ elim (Bool-cases (props.allocated_amount == 0)) [
                      | inl nothing ↦ rw (found, theirs, within, nothing) tt
                      | inr some_ ↦
                          elim (Bool-cases (
                            any (is_target b props.invoice_id)
                              (b.invoices.rows (allocated_to header props s)))) [
                                | inr closed ↦ rw (found, theirs, within, some_, closed) tt
                                | inl target ↦
                                    elim (Bool-cases
                                      (ltb (b.total_of i) (b.paid_of i + props.allocated_amount))) [
                                        | inl over ↦
                                            rw (found, theirs, within, some_, target, over) tt
                                        | inr under ↦
                                            rw (found, theirs, within, some_, target, under)
                                              (paid-IsSettled clock header props i _ s found
                                                (under_lem (b.total_of i) (b.paid_of i)
                                                  props.allocated_amount under)
                                                target)
                                      ]
                              ]
                    ]
                  ]
                ]
              ]
