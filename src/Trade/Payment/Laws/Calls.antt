-- ===== src/Trade/Payment/Laws/Calls.antt =====
-- Whole calls that keep the invoices settled: recorded payments, and the statements of which calls
-- on invoices are made.
use vrindavan.Base.{
  ℕ, ◌≡◌, ◌∙◌, ap, Bool, List, [], ◌∷◌, ◌++◌, update_where, delete_where, find_where, Bool-cases,
  Option-cases, inl, inr,
}
use vrindavan.Exec.Within.{
  IsPreorder, Within, Within-bind, Within-pure, Within-map_each, transaction-holds,
}
use vrindavan.Db.{Db, Clock}
use vrindavan.Tables.{Table, has_id, update_by_id, delete_all}
use vrindavan.Stock.Consistent.{Keeps, Keeps-preorder}
use vrindavan.Inventory.Document.{Document, to_domain, insert_row}
use vrindavan.Inventory.Document.RoundTrip.{drawn}
use vrindavan.Trade.Payment.{
  Billing, CreateAllocationProps, record_payment, create_with_allocations, is_overallocated,
}
use vrindavan.Trade.Payment.Inserted.{insert_payment-Within}
use vrindavan.Trade.Payment.Settled.{id_of, IsBilling}
use vrindavan.Trade.Payment.Settled.Changes.{
  drawn-IsSettledIn, new-IsSettledIn, stamped-IsSettledIn, deleted-IsSettledIn,
}
use vrindavan.Trade.Payment.Laws.{
  IsSettled, SameBilling, IsApart, IsSettled-same, along, next_document_number-IsSettled,
  allocate-IsSettled,
}

module _ {H A I : Type 0} (b : Billing H A I) (apart : IsApart b) where
  pre : IsPreorder (Keeps (IsSettled b))
  pre = Keeps-preorder (IsSettled b)

  -- A row of another table.
  pub other_row-IsSettled :
      {H' L' R : Type 0} (doc : Document H' L') (table : Table R)
      → ((xs : List R) (db : Db) → SameBilling b db (table.put xs db))
      → (values : ℕ → R) → Within (Keeps (IsSettled b)) (insert_row doc table values)
  other_row-IsSettled doc table put values = record {
    at = λ s h.
        let same = put (table.rows (drawn s) ++ values s.next_id ∷ []) (drawn s) in
        along b _ _ _ _ _ _ same.0 (same.1 ∙ (apart.drawn-rows s).0)
          (same.2 ∙ (apart.drawn-rows s).1)
          (drawn-IsSettledIn b s.next_id (b.invoices.rows s) (b.payments.line_rows.rows s) h);
  }

  pub invoice_row-IsSettled :
      {H' L' : Type 0} (doc : Document H' L') (values : ℕ → I)
      → ((id : ℕ) → id_of b (values id) ≡ id)
      → ((id : ℕ) → b.paid_of (values id) ≡ 0)
      → Within (Keeps (IsSettled b)) (insert_row doc b.invoices values)
  invoice_row-IsSettled doc values ids unpaid = record {
    at = λ s h.
        let same =
          apart.invoices-put (b.invoices.rows (drawn s) ++ values s.next_id ∷ []) (drawn s) in
        along b _ _ _ _ _ _ same.0
          (same.1 ∙ ap (λ is. is ++ values s.next_id ∷ []) (apart.drawn-rows s).0)
          (same.2 ∙ (apart.drawn-rows s).1)
          (new-IsSettledIn b s.next_id (values s.next_id) (b.invoices.rows s)
            (b.payments.line_rows.rows s) (ids s.next_id) (unpaid s.next_id) h);
  }

  pub stamped_invoice-IsSettled :
      (stamp : I → I) (id : ℕ)
      → ((i : I) → id_of b (stamp i) ≡ id_of b i)
      → ((i : I) → b.paid_of (stamp i) ≡ b.paid_of i)
      → ((i : I) → b.total_of (stamp i) ≡ b.total_of i)
      → Within (Keeps (IsSettled b)) (update_by_id b.invoices id stamp)
  stamped_invoice-IsSettled stamp id ids paid total = record {
    at = λ s.
        let new = update_where (has_id b.invoices id) stamp (b.invoices.rows s) in
        let same = apart.invoices-put new s in
        elim (Option-cases
          (find_where (has_id b.invoices id) (b.invoices.rows (b.invoices.put new s)))) [
            | inl missing ↦ rw missing tt
            | inr (i, found) ↦ rw found (λ h. along b _ _ _ _ _ _ same.0 same.1 same.2 (
                stamped-IsSettledIn b stamp ids paid total (has_id b.invoices id) s.next_id
                  (b.invoices.rows s) (b.payments.line_rows.rows s) h))
          ];
  }

  pub deleted_invoices-IsSettled :
      (q : I → Bool) → Within (Keeps (IsSettled b)) (delete_all b.invoices q)
  deleted_invoices-IsSettled q = record {
    at = λ s h.
        let same = apart.invoices-put (delete_where q (b.invoices.rows s)) s in
        along b _ _ _ _ _ _ same.0 same.1 same.2
          (deleted-IsSettledIn b q s.next_id (b.invoices.rows s) (b.payments.line_rows.rows s) h);
  }

  pub deleted_rows-IsSettled :
      {R : Type 0} (table : Table R)
      → ((xs : List R) (db : Db) → SameBilling b db (table.put xs db))
      → (q : R → Bool) → Within (Keeps (IsSettled b)) (delete_all table q)
  deleted_rows-IsSettled table put q = record {
    at = λ s. IsSettled-same b s _ (put (delete_where q (table.rows s)) s);
  }

  module _ (laws : IsBilling b) where
    record_payment-IsSettled :
        (clock : Clock) (party : ℕ) (new_header : List ℕ → ℕ → H)
        (props : List CreateAllocationProps) (s : Db)
        → IsSettled b s
        → IsSettled b (record_payment b clock party new_header props s).1
    unfolding record_payment
    record_payment-IsSettled clock party new_header props s = transaction-holds pre _ s (
        Within-bind pre _ _
          (next_document_number-IsSettled b apart laws b.payments.document_type b.payments.prefix)
          λ n.
            Within-bind pre _ _
              (insert_payment-Within b pre (new_header n) (
                other_row-IsSettled b.payments b.payments.headers apart.headers-put (new_header n)))
              λ h.
                Within-bind pre _ _
                  (Within-map_each pre props _ (allocate-IsSettled b apart laws clock party h))
                  λ ls. Within-pure pre (to_domain b.payments h ls))

    pub create_with_allocations-IsSettled :
        (clock : Clock) (party amount : ℕ) (new_header : List ℕ → ℕ → H)
        (props : List CreateAllocationProps) (s : Db)
        → IsSettled b s
        → IsSettled b (create_with_allocations b clock party amount new_header props s).1
    unfolding create_with_allocations
    create_with_allocations-IsSettled clock party amount new_header props s h =
        elim (Bool-cases (is_overallocated amount props)) [
          | inl over ↦ rw over h
          | inr covered ↦ rw covered (record_payment-IsSettled clock party new_header props s h)
        ]
