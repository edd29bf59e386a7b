-- ===== src/Trade/Spares.antt =====
-- What making, changing, fulfilling and paying leave alone: a part of the database that reads none
-- of the tables that they write.
use vrindavan.Base.{
  ℕ, ◌+◌, ◌&&◌, not, some, Bool, List, ltb, ◌==◌, find_where, any, inl, inr, Bool-cases,
}
use vrindavan.Exec.Within.{
  Within, Within-bind, Within-then, Within-pure, Within-gets, Within-or_throw, Within-throw_if,
  Within-map_each, transaction-holds,
}
use vrindavan.Db.{Db, Clock, invalid_allocation, check_violation}
use vrindavan.Tables.{has_id}
use vrindavan.Inventory.Document.{Document, to_domain}
use vrindavan.Inventory.Document.Spares.{
  Spares, Spares-preorder, IsOutside, IsBlind, updated_row-Spares, updated_rows-Spares,
  inserted_row-Spares, next_document_number-Spares,
}
use vrindavan.Trade.Document.{Pricing, create_priced, transition}
use vrindavan.Trade.Document.Laws.{create_priced-holds, transition-holds}
use vrindavan.Trade.Fulfilment.{Fulfils, fulfil}
use vrindavan.Trade.Fulfilment.Laws.Holds.{fulfil-holds}
use vrindavan.Trade.Payment.Inserted.{insert_payment-Within}
use vrindavan.Trade.Payment.{
  Billing, CreateAllocationProps, is_target, status_after, exceeds, allocate, insert_payment,
  record_payment, create_with_allocations, is_overallocated,
}

module _ {X : Type 0} (part : Db → X) (blind : IsBlind part) where
  module _ {H L : Type 0} (doc : Document H L) (headers : IsOutside part doc.headers) where
    pub create_priced-Spares :
        {Y P C : Type 0} (pricing : Pricing H L Y P C) (props : List P)
        → IsOutside part doc.line_rows
        → Within (Spares part) pricing.year
        → (s : Db) → Spares part s (create_priced doc pricing props s).1
    create_priced-Spares pricing props lines year =
        create_priced-holds doc (Spares-preorder part) pricing props year
          (next_document_number-Spares part blind doc.document_type doc.prefix)
          (λ y cs n.
            inserted_row-Spares part blind doc doc.headers headers (pricing.new_header y cs n))
          (λ h p c. inserted_row-Spares part blind doc doc.line_rows lines (pricing.new_line h p c))

    pub transition-Spares :
        (allowed : H → Bool) (stamp : H → H) (id : ℕ) (s : Db)
        → Spares part s (transition doc allowed stamp id s).1
    transition-Spares allowed stamp id =
        transition-holds doc (Spares-preorder part) allowed stamp id
          (updated_row-Spares part doc.headers headers id stamp)

  pub fulfil-Spares :
      {H L O M : Type 0} (f : Fulfils H L O M) (clock : Clock)
      → ((h : H) (l : L) (k : ℕ) → Within (Spares part) (f.post clock h l k))
      → IsOutside part f.note.headers
      → IsOutside part f.orders
      → IsOutside part f.order_lines
      → (id : ℕ) (s : Db) → Spares part s (fulfil f clock id s).1
  fulfil-Spares f clock posts notes orders order_lines =
      fulfil-holds f (Spares-preorder part) clock posts
        (λ id g. updated_rows-Spares part f.order_lines order_lines (has_id f.order_lines id) g)
        (λ id. updated_row-Spares part f.note.headers notes id (f.stamp clock))
        (λ g id. updated_rows-Spares part f.orders orders _ g)

  module _ {H A I : Type 0} (b : Billing H A I) (headers : IsOutside part b.payments.headers)
      (allocations : IsOutside part b.payments.line_rows)
      (invoices : IsOutside part b.invoices) where
    allocate-Spares :
        (clock : Clock) (party : ℕ) (header : H) (props : CreateAllocationProps)
        → Within (Spares part) (allocate b clock party header props)
    unfolding allocate
    allocate-Spares clock party header props =
        let K = Spares-preorder part in
        let refusal = invalid_allocation (some props.invoice_id) in
        Within-bind K _ _
          (Within-gets K
            (λ db. find_where (has_id b.invoices props.invoice_id) (b.invoices.rows db)))
          λ found. Within-bind K _ _ (Within-or_throw K found refusal) λ i.
            Within-then K _ _ (Within-throw_if K (not (b.party_of i == party)) refusal) (
              Within-then K _ _ (Within-throw_if K (exceeds b props.allocated_amount i) refusal) (
                Within-then K _ _ (Within-throw_if K (props.allocated_amount == 0) check_violation)
                  (Within-bind K _ _
                    (inserted_row-Spares part blind b.payments b.payments.line_rows allocations
                      (b.new_allocation header props))
                    λ a.
                      Within-bind K _ _
                        (Within-gets K
                          (λ db. any (is_target b props.invoice_id) (b.invoices.rows db)))
                        λ updated.
                          Within-then K _ _
                            (Within-throw_if K
                              (updated && ltb (b.total_of i) (b.paid_of i + props.allocated_amount))
                              check_violation)
                            (Within-then K _ _
                              (updated_rows-Spares part b.invoices invoices
                                (is_target b props.invoice_id)
                                (b.pay clock (b.paid_of i + props.allocated_amount)
                                  (status_after b props.allocated_amount i)))
                              (Within-then K _ _ (Within-throw_if K (not updated) refusal)
                                (Within-pure K a))))))

    insert_payment-Spares :
        (new_header : ℕ → H) → Within (Spares part) (insert_payment b new_header)
    unfolding insert_payment
    insert_payment-Spares new_header =
        insert_payment-Within b (Spares-preorder part) new_header
          (inserted_row-Spares part blind b.payments b.payments.headers headers new_header)

    record_payment-Spares :
        (clock : Clock) (party : ℕ) (new_header : List ℕ → ℕ → H)
        (props : List CreateAllocationProps) (s : Db)
        → Spares part s (record_payment b clock party new_header props s).1
    unfolding record_payment
    record_payment-Spares clock party new_header props s =
        let K = Spares-preorder part in
        transaction-holds K _ s (
          Within-bind K _ _
            (next_document_number-Spares part blind b.payments.document_type b.payments.prefix)
            λ n. Within-bind K _ _ (insert_payment-Spares (new_header n)) λ h.
              Within-bind K _ _ (Within-map_each K props _ (allocate-Spares clock party h))
                λ ls. Within-pure K (to_domain b.payments h ls))

    pub create_with_allocations-Spares :
        (clock : Clock) (party amount : ℕ) (new_header : List ℕ → ℕ → H)
        (props : List CreateAllocationProps) (s : Db)
        → Spares part s (create_with_allocations b clock party amount new_header props s).1
    unfolding create_with_allocations
    create_with_allocations-Spares clock party amount new_header props s =
        elim (Bool-cases (is_overallocated amount props)) [
          | inl over ↦ rw over ((Spares-preorder part).rfl s)
          | inr covered ↦ rw covered (record_payment-Spares clock party new_header props s)
        ]
