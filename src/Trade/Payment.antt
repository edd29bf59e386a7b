-- ===== src/Trade/Payment.antt =====
-- Payments that are allocated to invoices: `createWithAllocations` of
-- customer-payment.kysely-repository.ts and of supplier-payment.kysely-repository.ts. The
-- decisions are taken in doubles, so 0.2 cannot be allocated to an invoice of 0.3 of which 0.1 is
-- paid, since 0.3 - 0.1 is less than 0.2. What is paid is counted in cents, to which the column
-- rounds the sum of the two doubles.
pub mod Settled
pub mod Laws
pub mod Raises
pub mod Inserted
use vrindavan.Base.{
  ℕ, [], ◌∷◌, ◌+◌, ◌-◌, Bool, not, ◌&&◌, none, some, List, any, map, ltb, leb, ◌==◌, if◌then◌else◌,
}
use vrindavan.Exec.{◌>>=◌, ◌>>◌, gets, pure, throw_if, or_throw, transaction, map_each}
use vrindavan.Trade.Double.{hundredths, add, subtract, is_less, reduce_sum}
use vrindavan.Db.{
  Db, Trx, Clock, InvoiceStatus, invalid_allocation, check_violation, unique_violation,
  foreign_key_violation,
}
use vrindavan.Tables.{Table, has_id, find_by_id, update_all}
use vrindavan.Numbering.{next_document_number}
use vrindavan.Inventory.Document.{Document, Loaded, to_domain, insert_row}

-- `CreateCustomerPaymentAllocationProps` and its like for suppliers.
pub record CreateAllocationProps : Type 0 where
  pub invoice_id : ℕ
  pub allocated_amount : ℕ

abbrev pub is_payable : InvoiceStatus → Bool
is_payable InvoiceStatus.draft = Bool.false
is_payable InvoiceStatus.approved = Bool.true
is_payable InvoiceStatus.partially_paid = Bool.true
is_payable InvoiceStatus.paid = Bool.false
is_payable InvoiceStatus.cancelled = Bool.false

-- `totalAllocated > props.amount`, in doubles.
unfoldable pub is_overallocated : ℕ → List CreateAllocationProps → Bool
unfolding hundredths is_less reduce_sum
is_overallocated amount props =
    is_less (hundredths amount) (reduce_sum (map (λ a. hundredths a.allocated_amount) props))

-- Payments `H` with allocations `A`, of invoices `I`.
pub record Billing (H A I : Type 0) : Type 0 where
  pub payments : Document H A
  pub number_of : H → List ℕ
  pub amount_on : H → ℕ
  -- the party that the payment references is there
  pub has_party : H → Db → Bool
  pub invoices : Table I
  pub party_of : I → ℕ
  pub total_of : I → ℕ
  pub paid_of : I → ℕ
  pub status_of : I → InvoiceStatus
  -- `set({ paid_amount, status, updated_at })`
  pub pay : Clock → ℕ → InvoiceStatus → I → I
  pub invoice_of : A → ℕ
  pub amount_of : A → ℕ
  pub new_allocation : H → CreateAllocationProps → ℕ → A

abbrev pub same_number : List ℕ → List ℕ → Bool
same_number [] [] = Bool.true
same_number [] (y ∷ ys) = Bool.false
same_number (x ∷ xs) [] = Bool.false
same_number (x ∷ xs) (y ∷ ys) = x == y && same_number xs ys

module _ {H A I : Type 0} (b : Billing H A I) where
  -- `newPaid >= Number(invoice.total_amount)`, in doubles.
  unfoldable pub status_after : ℕ → I → InvoiceStatus
  unfolding add hundredths is_less
  status_after amount invoice =
      if is_less (add (hundredths (b.paid_of invoice)) (hundredths amount))
        (hundredths (b.total_of invoice))
      then InvoiceStatus.partially_paid
      else InvoiceStatus.paid

  -- `allocatedAmount > Number(total_amount) - Number(paid_amount)`, in doubles.
  unfoldable pub exceeds : ℕ → I → Bool
  unfolding subtract hundredths is_less
  exceeds amount invoice =
      is_less (subtract (hundredths (b.total_of invoice)) (hundredths (b.paid_of invoice)))
        (hundredths amount)

  -- `where('id', '=', …).where('status', 'in', ['approved', 'partially_paid'])`
  abbrev pub is_target : ℕ → I → Bool
  is_target id invoice = has_id b.invoices id invoice && is_payable (b.status_of invoice)

  unfoldable pub allocate : Clock → ℕ → H → CreateAllocationProps → Trx A
  unfolding status_after exceeds
  allocate clock party header props = do
    found ← find_by_id b.invoices props.invoice_id
    invoice ← or_throw found (invalid_allocation (some props.invoice_id))
    throw_if (not (b.party_of invoice == party)) (invalid_allocation (some props.invoice_id))
    throw_if (exceeds props.allocated_amount invoice) (invalid_allocation (some props.invoice_id))
    -- `CHECK (allocated_amount > 0)`
    throw_if (props.allocated_amount == 0) check_violation
    allocation ← insert_row b.payments b.payments.line_rows (b.new_allocation header props)
    let paid = b.paid_of invoice + props.allocated_amount
    updated ← gets (λ db. any (is_target props.invoice_id) (b.invoices.rows db))
    -- `CHECK (paid_amount <= total_amount)`
    throw_if (updated && ltb (b.total_of invoice) paid) check_violation
    update_all b.invoices (is_target props.invoice_id)
        (b.pay clock paid (status_after props.allocated_amount invoice))
    throw_if (not updated) (invalid_allocation (some props.invoice_id))
    pure allocation

  -- `payment_number … UNIQUE`
  abbrev pub is_taken : List ℕ → Db → Bool
  is_taken number db = any (λ h. same_number (b.number_of h) number) (b.payments.headers.rows db)

  -- The insert of a payment, with the constraints of its table but the reference to a user.
  unfoldable pub insert_payment : (ℕ → H) → Trx H
  insert_payment new_header = do
    h ← gets (λ db. new_header db.next_id)
    throw_if (b.amount_on h == 0) check_violation
    taken ← gets (is_taken (b.number_of h))
    throw_if taken unique_violation
    known ← gets (b.has_party h)
    throw_if (not known) foreign_key_violation
    insert_row b.payments b.payments.headers new_header

  unfoldable pub record_payment :
      Clock → ℕ → (List ℕ → ℕ → H) → List CreateAllocationProps → Trx (Loaded H A)
  unfolding allocate map_each insert_payment
  record_payment clock party new_header props = transaction (do
    number ← next_document_number b.payments.document_type b.payments.prefix
    header ← insert_payment (new_header number)
    allocations ← map_each props (allocate clock party header)
    pure (to_domain b.payments header allocations))

  unfoldable pub create_with_allocations :
      Clock → ℕ → ℕ → (List ℕ → ℕ → H) → List CreateAllocationProps → Trx (Loaded H A)
  unfolding record_payment is_overallocated
  create_with_allocations clock party amount new_header props = do
    throw_if (is_overallocated amount props) (invalid_allocation none)
    record_payment clock party new_header props
