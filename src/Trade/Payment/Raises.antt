-- ===== src/Trade/Payment/Raises.antt =====
-- Which exceptions recording a payment throws, and that it is atomic (`createWithAllocations` of
-- customer-payment.kysely-repository.ts and supplier-payment.kysely-repository.ts).
use vrindavan.Base.{
  ◌+◌, ◌==◌, ◌&&◌, not, some, any, ltb, ℕ, ◌≡◌, Bool, true, none, List, String, refl, arith,
  Bool-cases, inl, inr,
}
use vrindavan.Exec.{err, pure, gets, or_throw, throw_if, ◌>>=◌, ◌>>◌, map_each}
use vrindavan.Exec.Raises.{
  Raises, Raises-bind, Raises-then, Raises-pure, Raises-throw_if, Raises-or_throw, Raises-map_each,
  Raises-transaction, transaction-atomic,
}
use vrindavan.Db.{
  Db, Error, Clock, DocumentType, invalid_allocation, no_current_financial_year, check_violation,
}
use vrindavan.Stock.Refusal.{is_storage}
use vrindavan.Numbering.{
  next_document_number, get_current_financial_year_id, next_sequence, fn_next_document_number,
}
use vrindavan.Inventory.Document.{to_domain, insert_row}
use vrindavan.Tables.{find_by_id, update_all}
use vrindavan.Trade.Payment.{
  is_target, status_after, exceeds, Billing, CreateAllocationProps, allocate, insert_payment,
  record_payment, create_with_allocations, is_overallocated,
}

-- An allocation that is refused, no financial year to number the payment in, or an error of the
-- database.
abbrev pub is_payment_error : Error → Bool
is_payment_error (invalid_allocation invoice) = true
is_payment_error no_current_financial_year = true
is_payment_error e = is_storage e

abbrev pub PaymentError : Error → Type 0
PaymentError e = is_payment_error e ≡ true

next_document_number-Raises :
    (t : DocumentType) (prefix : String) → Raises PaymentError (next_document_number t prefix)
unfolding next_document_number get_current_financial_year_id fn_next_document_number next_sequence
next_document_number-Raises t prefix = record { at = λ s. ground arith }

module _ {H A I : Type 0} (b : Billing H A I) where
  paid-Raises :
      (clock : Clock) (props : CreateAllocationProps) (i : I) (allocation : A)
      → Raises PaymentError (
          gets (λ db. any (is_target b props.invoice_id) (b.invoices.rows db)) >>= λ updated.
          throw_if
            (updated && ltb (b.total_of i) (b.paid_of i + props.allocated_amount))
            check_violation
          >> (update_all b.invoices (is_target b props.invoice_id) (
                b.pay clock
                  (b.paid_of i + props.allocated_amount)
                  (status_after b props.allocated_amount i))
              >> (throw_if (not updated) (invalid_allocation (some props.invoice_id))
                  >> pure allocation)))
  paid-Raises clock props i allocation =
      let P = PaymentError in
      let refusal = invalid_allocation (some props.invoice_id) in
      Raises-bind P (gets (λ db. any (is_target b props.invoice_id) (b.invoices.rows db))) _
        (record { at = λ s. tt })
        λ updated.
          Raises-then P
            (throw_if (updated && ltb (b.total_of i) (b.paid_of i + props.allocated_amount))
              check_violation)
            _ (Raises-throw_if P _ check_violation refl)
            (Raises-then P
              (update_all b.invoices (is_target b props.invoice_id) (
                b.pay clock (b.paid_of i + props.allocated_amount)
                  (status_after b props.allocated_amount i)))
              _ (record { at = λ s. tt })
              (Raises-then P (throw_if (not updated) refusal) _ (Raises-throw_if P _ refusal refl)
                (Raises-pure P allocation)))

  allocate-Raises :
      (clock : Clock) (party : ℕ) (header : H) (props : CreateAllocationProps)
      → Raises PaymentError (allocate b clock party header props)
  unfolding allocate
  allocate-Raises clock party header props =
      let P = PaymentError in
      let refusal = invalid_allocation (some props.invoice_id) in
      Raises-bind P (find_by_id b.invoices props.invoice_id) _ (record { at = λ s. tt })
        λ found.
          Raises-bind P (or_throw found refusal) _ (Raises-or_throw P found refusal refl) λ i.
            Raises-then P (throw_if (not (b.party_of i == party)) refusal) _
              (Raises-throw_if P _ refusal refl)
              (Raises-then P (throw_if (exceeds b props.allocated_amount i) refusal) _
                (Raises-throw_if P _ refusal refl)
                (Raises-then P (throw_if (props.allocated_amount == 0) check_violation) _
                  (Raises-throw_if P _ check_violation refl)
                  (Raises-bind P
                    (insert_row b.payments b.payments.line_rows (b.new_allocation header props)) _
                    (record { at = λ s. tt }) (paid-Raises clock props i))))

  insert_payment-Raises : (new_header : ℕ → H) → Raises PaymentError (insert_payment b new_header)
  unfolding insert_payment
  insert_payment-Raises new_header = record { at = λ s. ground arith }

  record_payment-Raises :
      (clock : Clock) (party : ℕ) (new_header : List ℕ → ℕ → H) (props : List CreateAllocationProps)
      → Raises PaymentError (record_payment b clock party new_header props)
  unfolding record_payment
  record_payment-Raises clock party new_header props = Raises-transaction PaymentError _ (
      Raises-bind PaymentError (next_document_number b.payments.document_type b.payments.prefix) _
        (next_document_number-Raises b.payments.document_type b.payments.prefix)
        λ number.
          Raises-bind PaymentError (insert_payment b (new_header number)) _
            (insert_payment-Raises (new_header number))
            λ header.
              Raises-bind PaymentError (map_each props (allocate b clock party header)) _
                (Raises-map_each PaymentError props (allocate b clock party header)
                  (allocate-Raises clock party header))
                λ allocations. Raises-pure PaymentError (to_domain b.payments header allocations))

  pub create_with_allocations-Raises :
      (clock : Clock) (party amount : ℕ) (new_header : List ℕ → ℕ → H)
      (props : List CreateAllocationProps)
      → Raises PaymentError (create_with_allocations b clock party amount new_header props)
  unfolding create_with_allocations
  create_with_allocations-Raises clock party amount new_header props =
      Raises-then PaymentError (throw_if (is_overallocated amount props) (invalid_allocation none))
        (record_payment b clock party new_header props)
        (Raises-throw_if PaymentError _ (invalid_allocation none) refl)
        (record_payment-Raises clock party new_header props)

  pub create_with_allocations-atomic :
      (clock : Clock) (party amount : ℕ) (new_header : List ℕ → ℕ → H)
      (props : List CreateAllocationProps) (s t : Db) (e : Error)
      → create_with_allocations b clock party amount new_header props s ≡ (err e, t)
      → t ≡ s
  unfolding create_with_allocations record_payment
  create_with_allocations-atomic clock party amount new_header props s t e h =
      elim (Bool-cases (is_overallocated amount props)) [
        | inl over ↦ cc (rw over at h)
        | inr within ↦
            transaction-atomic
              (next_document_number b.payments.document_type b.payments.prefix >>= λ number.
                insert_payment b (new_header number) >>= λ header.
                map_each props (allocate b clock party header) >>= λ allocations.
                pure (to_domain b.payments header allocations))
              s t e (rw within at h)
      ]
