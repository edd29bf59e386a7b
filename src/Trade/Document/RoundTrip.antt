-- ===== src/Trade/Document/RoundTrip.antt =====
-- A priced document that was made is found under its id (`createWithLines` and `findById` of orders,
-- quotations and invoices).
use vrindavan.Base.{ℕ, ◌≡◌, arith, refl, sym, subst, some, Bool, true, false, List, map}
use vrindavan.Exec.{ok, ◌>>=◌, ◌>>◌, gets, pure, throw_if, map_each}
use vrindavan.Db.{Db, Trx, Error, check_violation}
use vrindavan.Numbering.{next_document_number, get_current_financial_year_id}
use vrindavan.Inventory.Document.{Document, Loaded, to_domain, insert_row, find_document}
use vrindavan.Inventory.Document.RoundTrip.{
  IsStored, Fresh, Yield, Yield-continue, Yield-roll_back, with_sequences,
  next_document_number-sequences, Appends, AppendsAll, map_each-Appends, Inserted,
  insert_header-Inserted, Found, all-Found,
}
use vrindavan.Trade.Document.{Pricing, beside, create_priced}

pub get_current_financial_year_id-reads :
    (s : Db) → Yield (λ y t. t ≡ s) (get_current_financial_year_id s)
unfolding get_current_financial_year_id
get_current_financial_year_id-reads s = ground arith

throw_if-stays : (b : Bool) (e : Error) (s : Db) → Yield (λ _ t. t ≡ s) (throw_if b e s)
throw_if-stays true e s = tt
throw_if-stays false e s = refl

module _ {H L : Type 0} (doc : Document H L) (laws : IsStored doc) {Y P C : Type 0}
    (pricing : Pricing H L Y P C) (reads : (s : Db) → Yield (λ y t. t ≡ s) (pricing.year s))
    (ids : (y : Y) (cs : List C) (n : List ℕ) (id : ℕ)
      → doc.headers.id_of (pricing.new_header y cs n id) ≡ id)
    (one : (h : H) (p : P) (c : C) (s : Db)
      → Yield
          (Appends doc laws h s)
          (insert_row doc doc.line_rows (pricing.new_line h p c) s)) where
  abbrev with_header : List P → List C → H → Trx (Loaded H L)
  with_header ps cs h =
      map_each (beside ps cs) (λ l. insert_row doc doc.line_rows (pricing.new_line h l.0 l.1))
      >>= λ ls. pure (to_domain doc h ls)

  abbrev with_prices : List P → Y → List ℕ → List C → Trx (Loaded H L)
  with_prices ps y n cs =
      throw_if (pricing.refused cs) check_violation
      >> (insert_row doc doc.headers (pricing.new_header y cs n) >>= λ h. with_header ps cs h)

  abbrev with_year : List P → Y → Trx (Loaded H L)
  with_year ps y = next_document_number doc.document_type doc.prefix >>= λ n.
      gets (λ db. map (λ p. pricing.price p db) ps) >>= λ cs. with_prices ps y n cs

  with_prices-Found :
      (ps : List P) (y : Y) (n : List ℕ) (cs : List C) (s u : Db)
      → Fresh doc laws s
      → u ≡ with_sequences s u
      → Yield (Found doc laws) (with_prices ps y n cs u)
  with_prices-Found ps y n cs s u fresh same =
      Yield-continue (λ _ v. v ≡ u) (Found doc laws)
        (throw_if (pricing.refused cs) check_violation u)
        (λ _. insert_row doc doc.headers (pricing.new_header y cs n) >>= λ h. with_header ps cs h)
        (throw_if-stays (pricing.refused cs) check_violation u)
        λ _ v e.
          Yield-continue (Inserted doc laws s) (Found doc laws)
            (insert_row doc doc.headers (pricing.new_header y cs n) v) (λ h. with_header ps cs h)
            (insert_header-Inserted doc laws (pricing.new_header y cs n) (ids y cs n) s v
              (subst (λ x. x ≡ with_sequences s x) (sym e) same))
            λ h w i.
              Yield-continue (AppendsAll doc laws h w) (Found doc laws)
                (map_each (beside ps cs)
                  (λ l. insert_row doc doc.line_rows (pricing.new_line h l.0 l.1)) w)
                (λ ls. pure (to_domain doc h ls))
                (map_each-Appends doc laws h
                  (λ h l. insert_row doc doc.line_rows (pricing.new_line h l.0 l.1))
                  (λ l. one h l.0 l.1) (beside ps cs) w)
                λ ls t a. all-Found doc laws s w t h ls fresh i a

  create_priced-Found :
      (ps : List P) (s : Db)
      → Fresh doc laws s
      → Yield (Found doc laws) (create_priced doc pricing ps s)
  unfolding create_priced
  create_priced-Found ps s fresh =
      Yield-roll_back (Found doc laws) s ((pricing.year >>= λ y. with_year ps y) s) (
        Yield-continue (λ y u. u ≡ s) (Found doc laws) (pricing.year s) (λ y. with_year ps y)
          (reads s)
          λ y u e.
            Yield-continue (λ n v. v ≡ with_sequences s v) (Found doc laws)
              (next_document_number doc.document_type doc.prefix u)
              (λ n. gets (λ db. map (λ p. pricing.price p db) ps) >>= λ cs. with_prices ps y n cs)
              (subst
                (λ x.
                  Yield (λ n v. v ≡ with_sequences s v)
                    (next_document_number doc.document_type doc.prefix x))
                (sym e) (next_document_number-sequences doc.document_type doc.prefix s))
              λ n v same. with_prices-Found ps y n (map (λ p. pricing.price p v) ps) s v fresh same)

  pub create_priced-find :
      (ps : List P) (s t : Db) (d : Loaded H L)
      → Fresh doc laws s
      → create_priced doc pricing ps s ≡ (ok d, t)
      → find_document doc (doc.headers.id_of d.header) t ≡ (ok (some d), t)
  create_priced-find ps s t d fresh returned =
      subst (Yield (Found doc laws)) returned (create_priced-Found ps s fresh)
