-- ===== src/Trade/Outstanding/Statement.antt =====
-- The statement of one customer or supplier: what a listing of outstanding amounts says for it,
-- against its invoices.
use vrindavan.Base.{
  Bool, ℕ, ◌+◌, ◌-◌, ◌≡◌, refl, ◌∙◌, ap, arith, true, false, ◌&&◌, Option, none, some, List, [],
  ◌∷◌, All, sum_by, ◌==◌, ==→eq, find_where, find_where-passes, if◌then◌else◌, inl, inr, Bool-cases,
  Option-cases, select_where,
}
use vrindavan.Trade.Payment.{Billing, is_payable}
use vrindavan.Trade.Payment.Settled.{Settled}
use vrindavan.Trade.Outstanding.{
  View, Owed, is_outstanding, joined_to, outstanding_rows, of_party, owed_rows,
}

All-select_where :
    {A : Type 0} (P : A → Type 0) (p : A → Bool) (xs : List A)
    → All P xs
    → All P (select_where p xs)
All-select_where P p [] h = tt
All-select_where P p (x ∷ xs) h = ground (arith, All-select_where P p xs h.1)

pub of_party-Owed :
    {H A I C R : Type 0} {b : Billing H A I} (v : View b C R) (allocations : List A) (o : Option ℕ)
    (rows : List R)
    → All (Owed v allocations) rows
    → All (Owed v allocations) (of_party v o rows)
of_party-Owed v allocations none rows h = h
of_party-Owed v allocations (some id) rows h =
    All-select_where (Owed v allocations) (λ r. v.party_in r == id) rows h

module _ {H A I C R : Type 0} {b : Billing H A I} (v : View b C R) (id : ℕ) where
  -- What the customer or supplier is still owed or owes on one invoice, and on all.
  abbrev pub owed_on : I → ℕ
  owed_on i =
      if (b.party_of i == id) && is_payable (b.status_of i) then b.total_of i - b.paid_of i else 0

  abbrev pub total_owed : List R → ℕ
  total_owed = sum_by v.outstanding_in

  -- The customer that an invoice of `k` is joined with.
  abbrev Fits : Option C → ℕ → Type 0
  Fits none k = (k == id) ≡ false
  Fits (some c) k = v.party_id c ≡ k

  find-Fits :
      (parties : List C) (c : C) (k : ℕ)
      → find_where (λ c. v.party_id c == id) parties ≡ some c
      → Fits (find_where (λ c. v.party_id c == k) parties) k
  find-Fits parties c k found = elim (Option-cases (find_where (λ c. v.party_id c == k) parties)) [
    | inr (d, other) ↦
        rw other (==→eq (v.party_id d) k (find_where-passes (λ c. v.party_id c == k) parties other))
    | inl missing ↦ elim (Bool-cases (k == id)) [
      | inr apart ↦ rw missing apart
      | inl same ↦ absurd (
          cc (
            missing,
            found,
            ap (λ n. find_where (λ c. v.party_id c == n) parties) (==→eq k id same),
          ))
    ]
  ]

  joined-total :
      (today : ℕ) (i : I) (o : Option C) (rest : List R)
      → Fits o (b.party_of i)
      → is_outstanding v i ≡ true
      → total_owed (of_party v (some id) (joined_to v today i o rest))
        ≡ owed_on i + total_owed (of_party v (some id) rest)
  joined-total today i none rest apart owing = rw apart (omega arith)
  joined-total today i (some c) rest same owing =
      rw (v.party_in_row today i c, same) (ground (arith, v.outstanding_in_row today i c, owing))

  rows-total :
      (today : ℕ) (parties : List C) (c : C) (is : List I)
      → find_where (λ c. v.party_id c == id) parties ≡ some c
      → total_owed (of_party v (some id) (outstanding_rows v today parties is)) ≡ sum_by owed_on is
  rows-total today parties c [] found = refl
  rows-total today parties c (i ∷ is) found =
      let rest = rows-total today parties c is found in
      elim (Bool-cases (is_outstanding v i)) [
        | inl owing ↦ rw owing (
            joined-total today i (find_where (λ c. v.party_id c == b.party_of i) parties)
              (outstanding_rows v today parties is) (find-Fits parties c (b.party_of i) found) owing
            ∙ ap (λ n. owed_on i + n) rest)
        | inr clear ↦ rw clear (ground (arith, rest, clear))
      ]

  chosen : (rows : List R) → All (λ r. (v.party_in r == id) ≡ true) (of_party v (some id) rows)
  chosen [] = tt
  chosen (r ∷ rows) = ground (arith, chosen rows)

  pub record IsStatement (invoices : List I) (allocations : List A) (rows : List R) : Type 0 where
    pub addressed : All (λ r. (v.party_in r == id) ≡ true) rows
    pub owed : All (Owed v allocations) rows
    pub complete : total_owed rows ≡ sum_by owed_on invoices

  pub of_party-IsStatement :
      (today : ℕ) (parties : List C) (c : C) (invoices : List I) (allocations : List A)
      → All (Settled b allocations) invoices
      → find_where (λ c. v.party_id c == id) parties ≡ some c
      → IsStatement invoices allocations
          (of_party v (some id) (outstanding_rows v today parties invoices))
  of_party-IsStatement today parties c invoices allocations h found =
      let rows = outstanding_rows v today parties invoices in
      record {
        addressed = chosen rows;
        owed =
            of_party-Owed v allocations (some id) rows
              (owed_rows v allocations today parties invoices h);
        complete = rows-total today parties c invoices found;
      }
