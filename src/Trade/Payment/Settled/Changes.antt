-- ===== src/Trade/Payment/Settled/Changes.antt =====
-- Changes that keep the invoices settled: a new invoice, a stamp that leaves the amounts alone, a
-- deleted draft, and an id that is drawn for another table.
use vrindavan.Base.{
  ℕ, suc, ◌<◌, ◌≡◌, false, List, [], ◌∷◌, ◌++◌, arith, All, sym, update_where, delete_where, ◌==◌,
  Bool,
}
use vrindavan.Trade.Payment.{Billing}
use vrindavan.Trade.Payment.Settled.{id_of, allocated, Others, IsUniqueIds, Settled, IsSettledIn}

module _ {H A I : Type 0} (b : Billing H A I) where
  drawn_numbered :
      (n : ℕ) (is : List I) → All (λ i. id_of b i < n) is → All (λ i. id_of b i < suc n) is
  drawn_numbered n [] h = tt
  drawn_numbered n (x ∷ is) h = (omega (arith, h.0), drawn_numbered n is h.1)

  drawn_referenced :
      (n : ℕ) (xs : List A)
      → All (λ a. b.invoice_of a < n) xs
      → All (λ a. b.invoice_of a < suc n) xs
  drawn_referenced n [] h = tt
  drawn_referenced n (x ∷ xs) h = (omega (arith, h.0), drawn_referenced n xs h.1)

  -- An id that is drawn for another table.
  pub drawn-IsSettledIn :
      (n : ℕ) (is : List I) (xs : List A) → IsSettledIn b n is xs → IsSettledIn b (suc n) is xs
  drawn-IsSettledIn n is xs h = record {
    numbered = drawn_numbered n is h.numbered;
    unique = h.unique;
    settled = h.settled;
    referenced = drawn_referenced n xs h.referenced;
  }

  unallocated : (n : ℕ) (xs : List A) → All (λ a. b.invoice_of a < n) xs → allocated b n xs ≡ 0
  unallocated n [] h = omega arith
  unallocated n (x ∷ xs) h = ground (arith, unallocated n xs h.1)

  Others-append :
      (k : ℕ) (is : List I) (i : I)
      → Others b k is
      → (id_of b i == k) ≡ false
      → Others b k (is ++ i ∷ [])
  Others-append k [] i o e = (e, tt)
  Others-append k (x ∷ is) i o e = (o.0, Others-append k is i o.1 e)

  new_unique :
      (n : ℕ) (is : List I) (i : I)
      → id_of b i ≡ n
      → All (λ i. id_of b i < n) is
      → IsUniqueIds b is
      → IsUniqueIds b (is ++ i ∷ [])
  new_unique n [] i e h u = (tt, tt)
  new_unique n (x ∷ is) i e h u =
      (Others-append (id_of b x) is i u.0 (ground (arith, h.0)), new_unique n is i e h.1 u.1)

  All-append-one : (P : I → Type 0) (is : List I) (i : I) → All P is → P i → All P (is ++ i ∷ [])
  All-append-one P [] i h p = (p, tt)
  All-append-one P (x ∷ is) i h p = (h.0, All-append-one P is i h.1 p)

  -- A new invoice, under a fresh id, on which nothing is paid.
  pub new-IsSettledIn :
      (n : ℕ) (i : I) (is : List I) (xs : List A)
      → id_of b i ≡ n
      → b.paid_of i ≡ 0
      → IsSettledIn b n is xs
      → IsSettledIn b (suc n) (is ++ i ∷ []) xs
  new-IsSettledIn n i is xs e p h = record {
    numbered =
        All-append-one (λ i. id_of b i < suc n) is i (drawn_numbered n is h.numbered)
          (omega (arith, e));
    unique = new_unique n is i e h.numbered h.unique;
    settled =
        All-append-one (Settled b xs) is i h.settled
          (rw (e, p) (sym (unallocated n xs h.referenced), omega arith));
    referenced = drawn_referenced n xs h.referenced;
  }

  module _ (stamp : I → I) (same_id : (i : I) → id_of b (stamp i) ≡ id_of b i)
      (same_paid : (i : I) → b.paid_of (stamp i) ≡ b.paid_of i)
      (same_total : (i : I) → b.total_of (stamp i) ≡ b.total_of i) (q : I → Bool) where
    stamped-Others : (k : ℕ) (is : List I) → Others b k is → Others b k (update_where q stamp is)
    stamped-Others k [] o = tt
    stamped-Others k (x ∷ is) o = ground (arith, same_id x, stamped-Others k is o.1)

    stamped-IsUniqueIds : (is : List I) → IsUniqueIds b is → IsUniqueIds b (update_where q stamp is)
    stamped-IsUniqueIds [] u = tt
    stamped-IsUniqueIds (x ∷ is) u =
        ground (arith, same_id x, stamped-Others (id_of b x) is u.0, stamped-IsUniqueIds is u.1)

    stamped_all :
        (P : I → Type 0)
        → ((i : I) → P i → P (stamp i))
        → (is : List I) → All P is
        → All P (update_where q stamp is)
    stamped_all P k [] h = tt
    stamped_all P k (x ∷ is) h = ground (arith, k x h.0, stamped_all P k is h.1)

    -- A change that leaves the amounts alone, such as an approval.
    pub stamped-IsSettledIn :
        (n : ℕ) (is : List I) (xs : List A)
        → IsSettledIn b n is xs
        → IsSettledIn b n (update_where q stamp is) xs
    stamped-IsSettledIn n is xs h = record {
      numbered = stamped_all (λ i. id_of b i < n) (λ i l. rw (same_id i) l) is h.numbered;
      unique = stamped-IsUniqueIds is h.unique;
      settled =
          stamped_all (Settled b xs) (λ i l. rw (same_id i, same_paid i, same_total i) l) is
            h.settled;
      referenced = h.referenced;
    }

  module _ (q : I → Bool) where
    deleted_all : (P : I → Type 0) (is : List I) → All P is → All P (delete_where q is)
    deleted_all P [] h = tt
    deleted_all P (x ∷ is) h = ground (arith, deleted_all P is h.1)

    deleted-IsUniqueIds : (is : List I) → IsUniqueIds b is → IsUniqueIds b (delete_where q is)
    deleted-IsUniqueIds [] u = tt
    deleted-IsUniqueIds (x ∷ is) u = ground (
      arith,
      deleted_all (λ j. (id_of b j == id_of b x) ≡ false) is u.0,
      deleted-IsUniqueIds is u.1,
    )

    pub deleted-IsSettledIn :
        (n : ℕ) (is : List I) (xs : List A)
        → IsSettledIn b n is xs
        → IsSettledIn b n (delete_where q is) xs
    deleted-IsSettledIn n is xs h = record {
      numbered = deleted_all (λ i. id_of b i < n) is h.numbered;
      unique = deleted-IsUniqueIds is h.unique;
      settled = deleted_all (Settled b xs) is h.settled;
      referenced = h.referenced;
    }
