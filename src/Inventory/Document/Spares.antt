-- ===== src/Inventory/Document/Spares.antt =====
-- What a call leaves alone: a part of the database that it does not write, while ids are drawn.
use vrindavan.Base.{
  ℕ, String, ◌≡◌, ◌≤◌, ◌∙◌, ap, arith, refl, ◌&&◌, ◌==◌, Bool, List, [], ◌∷◌, ◌++◌, update_where,
  delete_where, find_where, Option-cases, inl, inr,
}
use vrindavan.Exec.{Result, ok, err}
use vrindavan.Exec.Within.{
  IsPreorder, Within, Post, Within-bind, Within-pure, Within-map_each, Within-weaken,
  transaction-holds,
}
use vrindavan.Db.{Db, Trx, Error, Clock, DocumentType}
use vrindavan.Tables.{Table, has_id, update_by_id, update_all, delete_all}
use vrindavan.Stock.Frame.{with_stock, OnlyStock}
use vrindavan.Stock.Posting.{PostMovementInput, post_stock_movement}
use vrindavan.Numbering.{next_document_number}
use vrindavan.Inventory.Document.{
  Document, to_domain, insert_row, create_document, approve_document, delete_document,
}
use vrindavan.Inventory.Document.Laws.{approval-Within}
use vrindavan.Inventory.Document.RoundTrip.{
  with_sequences, drawn, Yield, next_document_number-sequences,
}

post_stock_movement-draws :
    (clock : Clock) (input : PostMovementInput)
    → Within (λ s t. OnlyStock s t × (s.next_id ≤ t.next_id)) (post_stock_movement clock input)
unfolding post_stock_movement
post_stock_movement-draws clock input = record { at = λ s. ground arith }

module _ {X : Type 0} (part : Db → X) where
  abbrev pub Spares : Db → Db → Type 0
  Spares s t = (part t ≡ part s) × (s.next_id ≤ t.next_id)

  pub Spares-preorder : IsPreorder Spares
  Spares-preorder = record {
    rfl = λ s. (refl, omega arith);
    trans = λ s t u a b. (b.0 ∙ a.0, omega (arith, a.1, b.1));
  }

  -- The part does not read the table.
  abbrev pub IsOutside : {R : Type 0} → Table R → Type 0
  IsOutside {R} table =
      (xs : List R) (db : Db)
      → (part (table.put xs db) ≡ part db) × ((table.put xs db).next_id ≡ db.next_id)

  -- The part reads neither the counters of document numbers nor that of ids.
  pub record IsBlind : Type 0 where
    pub draws : (s : Db) → part (drawn s) ≡ part s
    pub numbers : (s t : Db) → part (with_sequences s t) ≡ part s

  same : (s t : Db) → (part t ≡ part s) × (t.next_id ≡ s.next_id) → Spares s t
  same s t h = (h.0, omega (arith, h.1))

  pub updated_row-Spares :
      {R : Type 0} (table : Table R)
      → IsOutside table
      → (id : ℕ) (f : R → R) → Within Spares (update_by_id table id f)
  updated_row-Spares table put id f = record {
    at = λ s.
        let new = update_where (has_id table id) f (table.rows s) in
        elim (Option-cases (find_where (has_id table id) (table.rows (table.put new s)))) [
          | inl missing ↦ rw missing tt
          | inr (r, found) ↦ rw found (same s (table.put new s) (put new s))
        ];
  }

  pub updated_rows-Spares :
      {R : Type 0} (table : Table R)
      → IsOutside table
      → (p : R → Bool) (f : R → R) → Within Spares (update_all table p f)
  updated_rows-Spares table put p f = record { at = λ s. same s _ (put _ s) }

  deleted_rows-Spares :
      {R : Type 0} (table : Table R)
      → IsOutside table
      → (p : R → Bool) → Within Spares (delete_all table p)
  deleted_rows-Spares table put p = record {
    at = λ s. same s _ (put (delete_where p (table.rows s)) s);
  }

  module _ (blind : IsBlind) where
    pub inserted_row-Spares :
        {H L R : Type 0} (doc : Document H L) (table : Table R)
        → IsOutside table
        → (values : ℕ → R) → Within Spares (insert_row doc table values)
    inserted_row-Spares doc table put values = record {
      at = λ s.
          let h = put (table.rows (drawn s) ++ values s.next_id ∷ []) (drawn s) in
          (h.0 ∙ blind.draws s, omega (arith, h.1));
    }

    numbered :
        {B : Type 0} (s : Db) (r : Result Error B × Db)
        → Yield (λ n u. u ≡ with_sequences s u) r
        → Post Spares s r
    numbered s (ok n, u) e = (ap part e ∙ blind.numbers s u, omega (arith, ap (λ u. u.next_id) e))
    numbered s (err x, u) e = tt

    pub next_document_number-Spares :
        (t : DocumentType) (prefix : String) → Within Spares (next_document_number t prefix)
    next_document_number-Spares t prefix = record {
      at = λ s. numbered s _ (next_document_number-sequences t prefix s);
    }

    module _ {H L : Type 0} (doc : Document H L) (headers : IsOutside doc.headers) where
      pub create_document-Spares :
          {P : Type 0} (new_header : List ℕ → ℕ → H) (props : List P) (insert_line : H → P → Trx L)
          → ((h : H) (p : P) → Within Spares (insert_line h p))
          → (s : Db) → Spares s (create_document doc new_header props insert_line s).1
      unfolding create_document
      create_document-Spares new_header props insert_line inserts s =
          let K = Spares-preorder in
          transaction-holds K _ s (
            Within-bind K _ _ (next_document_number-Spares doc.document_type doc.prefix) λ n.
              Within-bind K _ _ (inserted_row-Spares doc doc.headers headers (new_header n)) λ h.
                Within-bind K _ _ (Within-map_each K props (insert_line h) (inserts h))
                  λ ls. Within-pure K (to_domain doc h ls))

      pub approve_document-Spares :
          (post_line : H → L → Trx (Unit {0})) (stamp : H → H)
          → ((h : H) (l : L) → Within Spares (post_line h l))
          → (id : ℕ) (s : Db) → Spares s (approve_document doc post_line stamp id s).1
      unfolding approve_document
      approve_document-Spares post_line stamp posts id s =
          let K = Spares-preorder in
          transaction-holds K _ s (
            approval-Within doc post_line stamp K K.trans id (λ h l draft. posts h l)
              (λ rows.
                Within-bind K _ _ (updated_row-Spares doc.headers headers id stamp)
                  λ h. Within-pure K (to_domain doc h rows)))

  -- The part does not read the stock tables either.
  abbrev pub IsStockless : Type 0
  IsStockless = (s t : Db) → part (with_stock s t) ≡ part s

  pub post_stock_movement-Spares :
      IsStockless
      → (clock : Clock) (input : PostMovementInput)
      → Within Spares (post_stock_movement clock input)
  post_stock_movement-Spares stock clock input =
      Within-weaken (λ s t. OnlyStock s t × (s.next_id ≤ t.next_id)) Spares _
        (λ s t h. (ap part h.0 ∙ stock s t, h.1)) (post_stock_movement-draws clock input)

  pub delete_document-Spares :
      {H L : Type 0} (doc : Document H L)
      → IsOutside doc.headers
      → IsOutside doc.line_rows
      → (id : ℕ) (s : Db) → Spares s (delete_document doc id s).1
  unfolding delete_document
  delete_document-Spares doc headers lines id =
      let K = Spares-preorder in
      (Within-bind K (delete_all doc.headers _) _ (deleted_rows-Spares doc.headers headers _) λ d.
        Within-bind K (delete_all doc.line_rows _) _
          (deleted_rows-Spares doc.line_rows lines (λ l. d && (doc.parent_of l == id)))
          λ l. Within-pure K d).at
