-- ===== src/Trade/Payment/Settled.antt =====
-- What holds between the invoices and the allocations, as lists: every invoice is paid by the sum of
-- its allocations, and by no more than its total.
pub mod Changes
use vrindavan.Base.{
  ℕ, suc, ◌+◌, ◌-◌, ◌≤◌, ◌<◌, ◌≡◌, refl, Bool, true, false, ◌&&◌, not, some, List, [], ◌∷◌, ◌++◌,
  arith, All, any, sum_by, find_where, update_where, delete_where, ◌==◌, ltb, leb, if◌then◌else◌,
  Bool-cases, inl, inr, subst, sym, ==→eq,
}
use vrindavan.Db.{Clock, InvoiceStatus}
use vrindavan.Tables.{has_id}
use vrindavan.Trade.Payment.{Billing, CreateAllocationProps, is_target}

module _ {H A I : Type 0} (b : Billing H A I) where
  abbrev pub id_of : I → ℕ
  id_of = b.invoices.id_of

  -- What is allocated to the invoice of the id.
  abbrev pub allocated : ℕ → List A → ℕ
  allocated id = sum_by (λ a. if b.invoice_of a == id then b.amount_of a else 0)

  abbrev pub Others : ℕ → List I → Type 0
  Others id = All (λ j. (id_of j == id) ≡ false)

  abbrev pub IsUniqueIds : List I → Type 0
  IsUniqueIds [] = Unit
  IsUniqueIds (i ∷ is) = Others (id_of i) is × IsUniqueIds is

  abbrev pub Settled : List A → I → Type 0
  Settled xs i = (b.paid_of i ≡ allocated (id_of i) xs) × (b.paid_of i ≤ b.total_of i)

  -- With ids drawn below `n`.
  pub record IsSettledIn (n : ℕ) (is : List I) (xs : List A) : Type 0 where
    pub numbered : All (λ i. id_of i < n) is
    pub unique : IsUniqueIds is
    pub settled : All (Settled xs) is
    pub referenced : All (λ a. b.invoice_of a < n) xs

  allocated-append :
      (id : ℕ) (xs : List A) (a : A)
      → allocated id (xs ++ a ∷ [])
        ≡ allocated id xs + (if b.invoice_of a == id then b.amount_of a else 0)
  allocated-append id [] a = omega arith
  allocated-append id (x ∷ xs) a = omega (arith, allocated-append id xs a)

  Others-settled :
      (id : ℕ) (is : List I) (xs : List A) (a : A)
      → b.invoice_of a ≡ id
      → Others id is
      → All (Settled xs) is
      → All (Settled (xs ++ a ∷ [])) is
  Others-settled id [] xs a e o h = tt
  Others-settled id (i ∷ is) xs a e o h =
      ground (arith, allocated-append (id_of i) xs a, Others-settled id is xs a e o.1 h.1)

  -- Elsewhere nothing is written.
  Others-kept :
      (id : ℕ) (f : I → I) (is : List I)
      → Others id is
      → (any (is_target b id) is ≡ false) × (update_where (is_target b id) f is ≡ is)
  Others-kept id f [] o = (refl, refl)
  Others-kept id f (i ∷ is) o = ground (arith, Others-kept id f is o.1)

-- What `set({ paid_amount, status })` leaves, and what a new allocation says.
pub record IsBilling {H A I : Type 0} (b : Billing H A I) : Type 0 where
  pub pay-id :
      (c : Clock) (p : ℕ) (st : InvoiceStatus) (i : I) → id_of b (b.pay c p st i) ≡ id_of b i
  pub pay-paid : (c : Clock) (p : ℕ) (st : InvoiceStatus) (i : I) → b.paid_of (b.pay c p st i) ≡ p
  pub pay-total :
      (c : Clock) (p : ℕ) (st : InvoiceStatus) (i : I) → b.total_of (b.pay c p st i) ≡ b.total_of i
  pub invoice-new :
      (h : H) (p : CreateAllocationProps) (id : ℕ)
      → b.invoice_of (b.new_allocation h p id) ≡ p.invoice_id
  pub amount-new :
      (h : H) (p : CreateAllocationProps) (id : ℕ)
      → b.amount_of (b.new_allocation h p id) ≡ p.allocated_amount

module _ {H A I : Type 0} (b : Billing H A I) (laws : IsBilling b) (clock : Clock) (id amount : ℕ)
    (a : A) (to : b.invoice_of a ≡ id) (of : b.amount_of a ≡ amount) where
  pays :
      (i : I) (status : InvoiceStatus) (is : List I) (xs : List A)
      → find_where (has_id b.invoices id) is ≡ some i
      → any (is_target b id) is ≡ true
      → ltb (b.total_of i - b.paid_of i) amount ≡ false
      → IsUniqueIds b is
      → All (Settled b xs) is
      → All
          (Settled b (xs ++ a ∷ []))
          (update_where (is_target b id) (b.pay clock (b.paid_of i + amount) status) is)
  pays i status [] xs f t l u h = tt
  pays i status (x ∷ is) xs f t l u h = elim (Bool-cases (has_id b.invoices id x)) [
    | inl same ↦
        let o = subst (λ k. Others b k is) (==→eq (id_of b x) id same) u.0 in
        ground (
          arith,
          Others-kept b id (b.pay clock (b.paid_of i + amount) status) is o,
          Others-settled b id is xs a to o h.1,
          laws.pay-id clock (b.paid_of i + amount) status x,
          laws.pay-paid clock (b.paid_of i + amount) status x,
          laws.pay-total clock (b.paid_of i + amount) status x,
          allocated-append b id xs a,
          ==→eq (id_of b x) id same,
        )
    | inr other ↦ ground (arith, pays i status is xs, allocated-append b (id_of b x) xs a)
  ]

  pays-Others :
      (k paid : ℕ) (status : InvoiceStatus) (is : List I)
      → Others b k is
      → Others b k (update_where (is_target b id) (b.pay clock paid status) is)
  pays-Others k paid status [] o = tt
  pays-Others k paid status (x ∷ is) o =
      ground (arith, laws.pay-id clock paid status x, pays-Others k paid status is o.1)

  pays-IsUniqueIds :
      (paid : ℕ) (status : InvoiceStatus) (is : List I)
      → IsUniqueIds b is
      → IsUniqueIds b (update_where (is_target b id) (b.pay clock paid status) is)
  pays-IsUniqueIds paid status [] u = tt
  pays-IsUniqueIds paid status (x ∷ is) u = ground (
    arith,
    laws.pay-id clock paid status x,
    pays-Others (id_of b x) paid status is u.0,
    pays-IsUniqueIds paid status is u.1,
  )

  pays-numbered :
      (n paid : ℕ) (status : InvoiceStatus) (is : List I)
      → All (λ i. id_of b i < n) is
      → All (λ i. id_of b i < suc n) (update_where (is_target b id) (b.pay clock paid status) is)
  pays-numbered n paid status [] h = tt
  pays-numbered n paid status (x ∷ is) h =
      ground (arith, laws.pay-id clock paid status x, pays-numbered n paid status is h.1)

  found_numbered :
      (n : ℕ) (is : List I) {i : I}
      → find_where (has_id b.invoices id) is ≡ some i
      → All (λ i. id_of b i < n) is
      → id < n
  found_numbered n [] f h = cc
  found_numbered n (x ∷ is) {i} f h =
      ground (arith, ==→eq (id_of b x) id, found_numbered n is {i = i})

  referenced-new :
      (n : ℕ) (xs : List A)
      → id < n
      → All (λ a. b.invoice_of a < n) xs
      → All (λ a. b.invoice_of a < suc n) (xs ++ a ∷ [])
  referenced-new n [] l h = ground (arith)
  referenced-new n (x ∷ xs) l h = ground (arith, referenced-new n xs l h.1)

  -- An allocation that passes the guards, and the invoice with it.
  pub pays-IsSettledIn :
      (n : ℕ) (i : I) (status : InvoiceStatus) (is : List I) (xs : List A)
      → find_where (has_id b.invoices id) is ≡ some i
      → any (is_target b id) is ≡ true
      → ltb (b.total_of i - b.paid_of i) amount ≡ false
      → IsSettledIn b n is xs
      → IsSettledIn b
          (suc n)
          (update_where (is_target b id) (b.pay clock (b.paid_of i + amount) status) is)
          (xs ++ a ∷ [])
  pays-IsSettledIn n i status is xs f t l h = record {
    numbered = pays-numbered n (b.paid_of i + amount) status is h.numbered;
    unique = pays-IsUniqueIds (b.paid_of i + amount) status is h.unique;
    settled = pays i status is xs f t l h.unique h.settled;
    referenced = referenced-new n xs (found_numbered n is f h.numbered) h.referenced;
  }
