-- ===== src/Inventory/Document/Laws.antt =====
-- Approving a document, whatever the document: the guards, what a run may do to the database, and
-- that it can be done once.
use vrindavan.Base.{
  ℕ, ◌≡◌, ap, ◌∙◌, inl, inr, true, false, none, some, List, [], ◌∷◌, arith, find_where,
  update_where, Bool-cases, Option-cases,
}
use vrindavan.Exec.{ok, err, ◌>>=◌, ◌>>◌, pure, for_each}
use vrindavan.Exec.Within.{
  Post, Within, IsPreorder, Within-seq, Within-for_each, transaction-holds, Within-transaction,
  Within-returned,
}
use vrindavan.Db.{Db, Trx, document_not_found, document_not_draft}
use vrindavan.Tables.{has_id, update_by_id}
use vrindavan.Stock.Frame.{OnlyStock, OnlyStock-preorder, with_stock}
use vrindavan.Stock.Consistent.{IsConsistent, Keeps, Keeps-preorder}
use vrindavan.Inventory.Document.{
  Document, Loaded, to_domain, lines_for, approval, approve_document,
}

-- The tables of a document are tables of their own, apart from the stock tables.
pub record IsDocument {H L : Type 0} (doc : Document H L) : Type 0 where
  pub rows-put : (xs : List H) (db : Db) → doc.headers.rows (doc.headers.put xs db) ≡ xs
  pub rows-with_stock : (s t : Db) → doc.headers.rows (with_stock s t) ≡ doc.headers.rows s
  pub ledger-put : (xs : List H) (db : Db) → (doc.headers.put xs db).stock_ledger ≡ db.stock_ledger
  pub balances-put :
      (xs : List H) (db : Db) → (doc.headers.put xs db).stock_balances ≡ db.stock_balances

module _ {H L : Type 0} (doc : Document H L) (post_line : H → L → Trx (Unit {0}))
    (stamp : H → H) where
  pub approve_missing :
      (id : ℕ) (s : Db)
      → find_where (has_id doc.headers id) (doc.headers.rows s) ≡ none
      → approve_document doc post_line stamp id s ≡ (err (document_not_found id), s)
  unfolding approve_document
  approve_missing id s missing = rw missing

  pub approve_closed :
      (id : ℕ) (s : Db) {h : H}
      → find_where (has_id doc.headers id) (doc.headers.rows s) ≡ some h
      → doc.is_draft h ≡ false
      → approve_document doc post_line stamp id s ≡ (err (document_not_draft id), s)
  unfolding approve_document
  approve_closed id s found closed = rw (found, closed)

  abbrev pub finish : ℕ → List L → Trx (Loaded H L)
  finish id rows =
      update_by_id doc.headers id stamp >>= λ updated. pure (to_domain doc updated rows)

  pub approval_open :
      (id : ℕ) (s : Db) {h : H}
      → find_where (has_id doc.headers id) (doc.headers.rows s) ≡ some h
      → doc.is_draft h ≡ true
      → approval doc post_line stamp id s
        ≡ (for_each (lines_for doc id s) (post_line h) >> finish id (lines_for doc id s)) s
  unfolding approval
  approval_open id s found open_ = rw (found, open_)

  -- A run that returns has posted every line of a draft and then stamped the header.
  module _ {R Q T : Db → Db → Type 0} (pre : IsPreorder R)
      (join : (s t u : Db) → R s t → Q t u → T s u) where
    pub approval-Within :
        (id : ℕ)
        → ((h : H) (l : L) → doc.is_draft h ≡ true → Within R (post_line h l))
        → ((rows : List L) → Within Q (finish id rows))
        → Within T (approval doc post_line stamp id)
    approval-Within id posts finishes = record { at = run }
      where
        run : (s : Db) → Post T s (approval doc post_line stamp id s)
        run s = elim (Option-cases (find_where (has_id doc.headers id) (doc.headers.rows s))) [
          | inl missing ↦ unfold approval in rw missing tt
          | inr (h, found) ↦ elim (Bool-cases (doc.is_draft h)) [
            | inl draft ↦ rw (approval_open id s found draft) (
                (Within-seq join (for_each (lines_for doc id s) (post_line h)) _
                    (Within-for_each pre _ _ (λ l. posts h l draft))
                    (λ _. finishes (lines_for doc id s))).at
                  s)
            | inr closed ↦ unfold approval in rw (found, closed) tt
          ]
        ]

-- The stock tables as they were.
abbrev pub SameStock : Db → Db → Type 0
SameStock s t = (t.stock_ledger ≡ s.stock_ledger) × (t.stock_balances ≡ s.stock_balances)

pub IsConsistent-SameStock : (s t : Db) → SameStock s t → IsConsistent s → IsConsistent t
IsConsistent-SameStock s t (l, b) c = record {
  derivable = λ d. rw (l, b) (c.derivable d);
  unique = rw b c.unique;
  covered = rw b c.covered;
}

module _ {H L : Type 0} (doc : Document H L) (laws : IsDocument doc)
    (post_line : H → L → Trx (Unit {0})) (stamp : H → H) where
  -- The header of the id is stamped, and no other row of the table changes.
  abbrev pub Stamps : ℕ → Db → Db → Type 0
  Stamps id s t =
      doc.headers.rows t ≡ update_where (has_id doc.headers id) stamp (doc.headers.rows s)

  finish-Stamps : (id : ℕ) (rows : List L) → Within (Stamps id) (finish doc post_line stamp id rows)
  finish-Stamps id rows = record { at = run }
    where
      run : (s : Db) → Post (Stamps id) s (finish doc post_line stamp id rows s)
      run s =
          ground (
            arith,
            laws.rows-put (update_where (has_id doc.headers id) stamp (doc.headers.rows s)) s,
          )

  pub finish-SameStock :
      (id : ℕ) (rows : List L) → Within SameStock (finish doc post_line stamp id rows)
  finish-SameStock id rows = record { at = run }
    where
      run : (s : Db) → Post SameStock s (finish doc post_line stamp id rows s)
      run s = ground (
        arith,
        laws.ledger-put (update_where (has_id doc.headers id) stamp (doc.headers.rows s)) s,
        laws.balances-put (update_where (has_id doc.headers id) stamp (doc.headers.rows s)) s,
      )

  module _ (only_stock : (h : H) (l : L) → Within OnlyStock (post_line h l)) where
    pub approval-Stamps : (id : ℕ) → Within (Stamps id) (approval doc post_line stamp id)
    approval-Stamps id =
        approval-Within doc post_line stamp OnlyStock-preorder join id (λ h l _. only_stock h l)
          (finish-Stamps id)
      where
        join : (s t u : Db) → OnlyStock s t → Stamps id t u → Stamps id s u
        join s t u o st =
            st
            ∙ ap (λ x. update_where (has_id doc.headers id) stamp (doc.headers.rows x)) o
            ∙ ap (update_where (has_id doc.headers id) stamp) (laws.rows-with_stock s t)

  -- A relation that every posting stays within, and that is blind to all but the stock tables,
  -- holds of the whole call, whether it returns or throws.
  pub approve_document-holds :
      (R : Db → Db → Type 0)
      → IsPreorder R
      → ((s t u : Db) → R s t → SameStock t u → R s u)
      → ((h : H) (l : L) → Within R (post_line h l))
      → (id : ℕ) (s : Db) → R s (approve_document doc post_line stamp id s).1
  unfolding approve_document
  approve_document-holds R pre same posts id s =
      transaction-holds pre (approval doc post_line stamp id) s
        (approval-Within doc post_line stamp pre same id (λ h l _. posts h l) (finish-SameStock id))

  -- A document's postings, if each keeps the invariant of the stock, keep it together.
  pub approve_document-IsConsistent :
      ((h : H) (l : L) → Within (Keeps IsConsistent) (post_line h l))
      → (id : ℕ) (s : Db) → IsConsistent s
      → IsConsistent (approve_document doc post_line stamp id s).1
  approve_document-IsConsistent =
      approve_document-holds (Keeps IsConsistent) (Keeps-preorder IsConsistent)
        (λ s t u k same c. IsConsistent-SameStock t u same (k c))

pub approve_document-Stamps :
    {H L : Type 0} (doc : Document H L) (laws : IsDocument doc) (post_line : H → L → Trx (Unit {0}))
    (stamp : H → H)
    → ((h : H) (l : L) → Within OnlyStock (post_line h l))
    → (id : ℕ)
    → Within (Stamps doc laws post_line stamp id) (approve_document doc post_line stamp id)
unfolding approve_document
approve_document-Stamps doc laws post_line stamp only_stock id =
    Within-transaction _ (approval-Stamps doc laws post_line stamp only_stock id)

module _ {H L : Type 0} (doc : Document H L) (stamp : H → H)
    (stamp_id : (h : H) → doc.headers.id_of (stamp h) ≡ doc.headers.id_of h) where
  pub find-stamped :
      (id : ℕ) (rows : List H) {h : H}
      → find_where (has_id doc.headers id) rows ≡ some h
      → find_where (has_id doc.headers id) (update_where (has_id doc.headers id) stamp rows)
        ≡ some (stamp h)
  find-stamped id [] e = cc
  find-stamped id (x ∷ rows) {h} e = ground (arith, stamp_id x, find-stamped id rows {h = h})

module _ {H L : Type 0} (doc : Document H L) (laws : IsDocument doc)
    (post_line : H → L → Trx (Unit {0})) (stamp : H → H)
    (only_stock : (h : H) (l : L) → Within OnlyStock (post_line h l))
    (stamp_id : (h : H) → doc.headers.id_of (stamp h) ≡ doc.headers.id_of h)
    (stamp_closes : (h : H) → doc.is_draft (stamp h) ≡ false) where
  -- A document that was approved is closed: a second approval, whatever it would post and stamp, is
  -- refused as not a draft, and writes nothing.
  pub approve_twice :
      (again : H → L → Trx (Unit {0})) (restamp : H → H) (id : ℕ) (s t : Db) (d : Loaded H L)
      → approve_document doc post_line stamp id s ≡ (ok d, t)
      → approve_document doc again restamp id t ≡ (err (document_not_draft id), t)
  approve_twice again restamp id s t d approved =
      elim (Option-cases (find_where (has_id doc.headers id) (doc.headers.rows s))) [
        | inl missing ↦ absurd (cc (approve_missing doc post_line stamp id s missing, approved))
        | inr (h, found) ↦
            approve_closed doc again restamp id t
              (ap (find_where (has_id doc.headers id)) stamped
                ∙ find-stamped doc stamp stamp_id id _ found)
              (stamp_closes h)
      ]
    where
      stamped : Stamps doc laws post_line stamp id s t
      stamped =
          Within-returned (approve_document doc post_line stamp id) s t d
            (approve_document-Stamps doc laws post_line stamp only_stock id) approved
