-- ===== src/Inventory/Document/RoundTrip.antt =====
-- What was created is found (`createWithLines` and then `findById`).
use vrindavan.Base.{
  ℕ, suc, String, Bool, ◌≡◌, refl, sym, ap, ◌∙◌, subst, true, none, some, List, [], ◌∷◌, ◌++◌,
  arith, find_where, select_where, ◌==◌, ==_refl,
}
use vrindavan.Exec.{Result, ok, err, ◌>>=◌, continue, roll_back, map_each, pure}
use vrindavan.Db.{Db, Trx, Error, DocumentType}
use vrindavan.Tables.{has_id}
use vrindavan.Numbering.{next_document_number}
use vrindavan.Inventory.Document.{
  Document, Loaded, to_domain, lines_for, insert_row, create_document, find_document,
}

abbrev pub with_sequences : Db → Db → Db
with_sequences s t = record s { sequences = t.sequences }

abbrev pub drawn : Db → Db
drawn s = record s { next_id = suc s.next_id }

-- The two tables of a document, the counters and the supply of ids are apart.
pub record IsStored {H L : Type 0} (doc : Document H L) : Type 0 where
  pub headers-put : (xs : List H) (db : Db) → doc.headers.rows (doc.headers.put xs db) ≡ xs
  pub lines-put : (xs : List L) (db : Db) → doc.line_rows.rows (doc.line_rows.put xs db) ≡ xs
  pub lines-headers_put :
      (xs : List H) (db : Db) → doc.line_rows.rows (doc.headers.put xs db) ≡ doc.line_rows.rows db
  pub headers-lines_put :
      (xs : List L) (db : Db) → doc.headers.rows (doc.line_rows.put xs db) ≡ doc.headers.rows db
  pub headers-sequences : (s t : Db) → doc.headers.rows (with_sequences s t) ≡ doc.headers.rows s
  pub lines-sequences : (s t : Db) → doc.line_rows.rows (with_sequences s t) ≡ doc.line_rows.rows s
  pub headers-drawn : (s : Db) → doc.headers.rows (drawn s) ≡ doc.headers.rows s
  pub lines-drawn : (s : Db) → doc.line_rows.rows (drawn s) ≡ doc.line_rows.rows s

-- What a run that returns a value has done.
module _ {A : Type 0} where
  abbrev pub Yield : (A → Db → Type 0) → Result Error A × Db → Type 0
  Yield R (ok a, t) = R a t
  Yield R (err e, t) = Unit

module _ {A B : Type 0} (R : A → Db → Type 0) (Q : B → Db → Type 0) where
  pub Yield-continue :
      (r : Result Error A × Db) (f : A → Trx B)
      → Yield R r
      → ((a : A) (t : Db) → R a t → Yield Q (f a t))
      → Yield Q (continue r f)
  Yield-continue (ok a, t) f h k = k a t h
  Yield-continue (err e, t) f h k = tt

pub Yield-roll_back :
    {A : Type 0} (R : A → Db → Type 0) (s : Db) (r : Result Error A × Db)
    → Yield R r
    → Yield R (roll_back s r)
Yield-roll_back R s (ok a, t) h = h
Yield-roll_back R s (err e, t) h = tt

pub next_document_number-sequences :
    (t : DocumentType) (prefix : String) (s : Db)
    → Yield (λ n u. u ≡ with_sequences s u) (next_document_number t prefix s)
unfolding next_document_number
next_document_number-sequences t prefix s = ground arith

find_where-last {ℓ} :
    {R : Type ℓ} (p : R → Bool) (xs : List R) (x : R)
    → find_where p xs ≡ none
    → p x ≡ true
    → find_where p (xs ++ x ∷ []) ≡ some x
find_where-last p [] x h k = rw k refl
find_where-last p (y ∷ ys) x h k = ground (arith, find_where-last p ys x)

select_where-append {ℓ} :
    {R : Type ℓ} (p : R → Bool) (xs ys : List R)
    → select_where p (xs ++ ys) ≡ select_where p xs ++ select_where p ys
select_where-append p [] ys = refl
select_where-append p (x ∷ xs) ys = ground (arith, select_where-append p xs ys)

append_assoc {ℓ} : {R : Type ℓ} (xs ys zs : List R) → (xs ++ ys) ++ zs ≡ xs ++ (ys ++ zs)
append_assoc [] ys zs = refl
append_assoc (x ∷ xs) ys zs = ap (λ r. x ∷ r) (append_assoc xs ys zs)

append-nil {ℓ} : {R : Type ℓ} (xs : List R) → xs ++ [] ≡ xs
append-nil [] = refl
append-nil (x ∷ xs) = ap (λ r. x ∷ r) (append-nil xs)

module _ {H L : Type 0} (doc : Document H L) (laws : IsStored doc) where
  -- A line was appended to the table, as the header's.
  abbrev pub Appends : H → Db → L → Db → Type 0
  Appends h s l t =
      (doc.line_rows.rows t ≡ doc.line_rows.rows s ++ l ∷ [])
      × ((doc.headers.rows t ≡ doc.headers.rows s)
          × ((doc.parent_of l == doc.headers.id_of h) ≡ true))

  abbrev pub AppendsAll : H → Db → List L → Db → Type 0
  AppendsAll h s ls t =
      (doc.line_rows.rows t ≡ doc.line_rows.rows s ++ ls)
      × ((doc.headers.rows t ≡ doc.headers.rows s)
          × (select_where (λ l. doc.parent_of l == doc.headers.id_of h) ls ≡ ls))

  pub map_each-Appends :
      {P : Type 0} (h : H) (insert_line : H → P → Trx L)
      → ((p : P) (s : Db) → Yield (Appends h s) (insert_line h p s))
      → (ps : List P) (s : Db) → Yield (AppendsAll h s) (map_each ps (insert_line h) s)
  unfolding map_each
  map_each-Appends h insert_line one [] s = (sym (append-nil _), (refl, refl))
  map_each-Appends h insert_line one (p ∷ ps) s =
      Yield-continue (Appends h s) (AppendsAll h s) (insert_line h p s) _ (one p s) λ l t a.
        Yield-continue (AppendsAll h t) (AppendsAll h s) (map_each ps (insert_line h) t) _
          (map_each-Appends h insert_line one ps t)
          λ ls u b. (
            b.0 ∙ ap (λ x. x ++ ls) a.0 ∙ append_assoc (doc.line_rows.rows s) (l ∷ []) ls,
            (b.1.0 ∙ a.1.0, rw (a.1.1, b.1.1) refl),
          )

  found :
      (id : ℕ) (t : Db) {h : H} {ls : List L}
      → find_where (has_id doc.headers id) (doc.headers.rows t) ≡ some h
      → lines_for doc id t ≡ ls
      → find_document doc id t ≡ (ok (some (to_domain doc h ls)), t)
  unfolding find_document
  found id t header lines = rw (header, lines) refl

  -- The id that is drawn next is on no header and no line.
  pub record Fresh (s : Db) : Type 0 where
    pub headers : find_where (has_id doc.headers s.next_id) (doc.headers.rows s) ≡ none
    pub lines : lines_for doc s.next_id s ≡ []

  abbrev pub Inserted : Db → H → Db → Type 0
  Inserted s h v =
      (doc.headers.id_of h ≡ s.next_id)
      × ((doc.headers.rows v ≡ doc.headers.rows s ++ h ∷ [])
          × (doc.line_rows.rows v ≡ doc.line_rows.rows s))

  pub insert_header-Inserted :
      (values : ℕ → H)
      → ((id : ℕ) → doc.headers.id_of (values id) ≡ id)
      → (s u : Db) → u ≡ with_sequences s u
      → Yield (Inserted s) (insert_row doc doc.headers values u)
  insert_header-Inserted values ids s u same = (
    ids u.next_id ∙ ap (λ x. x.next_id) same,
    (
      laws.headers-put _ _
          ∙ ap (λ xs. xs ++ values u.next_id ∷ [])
              (laws.headers-drawn u ∙ ap doc.headers.rows same ∙ laws.headers-sequences s u),
      laws.lines-headers_put _ _
          ∙ laws.lines-drawn u
          ∙ ap doc.line_rows.rows same
          ∙ laws.lines-sequences s u,
    ),
  )

  abbrev pub Found : Loaded H L → Db → Type 0
  Found d t = find_document doc (doc.headers.id_of d.header) t ≡ (ok (some d), t)

  pub all-Found :
      (s v t : Db) (h : H) (ls : List L)
      → Fresh s
      → Inserted s h v
      → AppendsAll h v ls t
      → Found (to_domain doc h ls) t
  all-Found s v t h ls fresh i a =
      found (doc.headers.id_of h) t
        (ap (find_where (has_id doc.headers (doc.headers.id_of h))) (a.1.0 ∙ i.1.0)
          ∙ find_where-last (has_id doc.headers (doc.headers.id_of h)) (doc.headers.rows s) h
              (rw i.0 fresh.headers) (==_refl (doc.headers.id_of h)))
        (ap (select_where (λ l. doc.parent_of l == doc.headers.id_of h))
            (a.0 ∙ ap (λ xs. xs ++ ls) i.1.1)
          ∙ select_where-append (λ l. doc.parent_of l == doc.headers.id_of h) (doc.line_rows.rows s)
              ls
          ∙ rw (a.1.1, i.0, fresh.lines) refl)

  create_document-Found :
      {P : Type 0} (new_header : List ℕ → ℕ → H) (ps : List P) (insert_line : H → P → Trx L)
      → ((n : List ℕ) (id : ℕ) → doc.headers.id_of (new_header n id) ≡ id)
      → ((h : H) (p : P) (s : Db) → Yield (Appends h s) (insert_line h p s))
      → (s : Db) → Fresh s
      → Yield Found (create_document doc new_header ps insert_line s)
  unfolding create_document
  create_document-Found new_header ps insert_line ids one s fresh =
      Yield-roll_back Found s
        ((next_document_number doc.document_type doc.prefix >>= λ n. with_number n) s)
        (Yield-continue (λ n u. u ≡ with_sequences s u) Found
          (next_document_number doc.document_type doc.prefix s) (λ n. with_number n)
          (next_document_number-sequences doc.document_type doc.prefix s)
          λ n u same.
            Yield-continue (Inserted s) Found (insert_row doc doc.headers (new_header n) u)
              (λ h. with_header h) (insert_header-Inserted (new_header n) (ids n) s u same)
              λ h v i.
                Yield-continue (AppendsAll h v) Found (map_each ps (insert_line h) v)
                  (λ ls. pure (to_domain doc h ls)) (map_each-Appends h insert_line (one h) ps v)
                  λ ls t a. all-Found s v t h ls fresh i a)
    where
      with_header : H → Trx (Loaded H L)
      with_header h = map_each ps (insert_line h) >>= λ ls. pure (to_domain doc h ls)

      with_number : List ℕ → Trx (Loaded H L)
      with_number n = insert_row doc doc.headers (new_header n) >>= λ h. with_header h

  -- A document that was created is found under its id, with its lines in their order, where the id
  -- that is drawn for it is on no row yet.
  pub create_document-find :
      {P : Type 0} (new_header : List ℕ → ℕ → H) (ps : List P) (insert_line : H → P → Trx L)
      → ((n : List ℕ) (id : ℕ) → doc.headers.id_of (new_header n id) ≡ id)
      → ((h : H) (p : P) (s : Db) → Yield (Appends h s) (insert_line h p s))
      → (s t : Db) (d : Loaded H L) → Fresh s
      → create_document doc new_header ps insert_line s ≡ (ok d, t)
      → find_document doc (doc.headers.id_of d.header) t ≡ (ok (some d), t)
  create_document-find new_header ps insert_line ids one s t d fresh returned =
      subst (Yield Found) returned (create_document-Found new_header ps insert_line ids one s fresh)
