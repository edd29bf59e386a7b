-- ===== src/Inventory/Document/Lines.antt =====
-- What the lines of a document do together, when it is approved.
use vrindavan.Base.{subst, inl, inr, Bool-cases, ℕ, ◌≡◌, true, some, List, [], ◌∷◌, find_where}
use vrindavan.Exec.{ok, ◌>>◌}
use vrindavan.Exec.{for_each}
use vrindavan.Exec.Within.{Post, Within, Within-seq, Post-roll_back}
use vrindavan.Db.{Db, Trx}
use vrindavan.Tables.{has_id}
use vrindavan.Inventory.Document.{Loaded, Document, lines_for, approval, approve_document}
use vrindavan.Inventory.Document.Laws.{
  approve_closed, IsDocument, SameStock, approval_open, finish-SameStock, finish,
}

-- `R ls s t`: the lines `ls`, one after another, lead from `s` to `t`.
module _ {L : Type 0} (R : List L → Db → Db → Type 0) (start : (s : Db) → R [] s s)
    (f : L → Trx (Unit {0}))
    (step : (l : L)
      → Within (λ s t. (ls : List L) (u : Db) → R ls t u → R (l ∷ ls) s u) (f l)) where
  pub for_each-lines : (ls : List L) → Within (R ls) (for_each ls f)
  unfolding for_each
  for_each-lines [] = record { at = start }
  for_each-lines (l ∷ ls) =
      Within-seq (λ s t u k r. k ls u r) (f l) (λ _. for_each ls f) (step l)
        (λ _. for_each-lines ls)

module _ {H L : Type 0} (doc : Document H L) (laws : IsDocument doc)
    (post_line : H → L → Trx (Unit {0})) (stamp : H → H) (R : List L → Db → Db → Type 0)
    (start : (s : Db) → R [] s s)
    (stock : (ls : List L) (s t u : Db) → R ls s t → SameStock t u → R ls s u) where
  run_lines :
      (id : ℕ) (h : H) (rows : List L)
      → ((l : L)
          → Within (λ s t. (ls : List L) (u : Db) → R ls t u → R (l ∷ ls) s u) (post_line h l))
      → Within (R rows) (for_each rows (post_line h) >> finish doc post_line stamp id rows)
  run_lines id h rows step =
      Within-seq (stock rows) (for_each rows (post_line h))
        (λ _. finish doc post_line stamp id rows) (for_each-lines R start (post_line h) step rows)
        (λ _. finish-SameStock doc laws post_line stamp id rows)

  pub approve-lines :
      (id : ℕ) (s : Db) {h : H}
      → ((l : L)
          → Within (λ s t. (ls : List L) (u : Db) → R ls t u → R (l ∷ ls) s u) (post_line h l))
      → find_where (has_id doc.headers id) (doc.headers.rows s) ≡ some h
      → doc.is_draft h ≡ true
      → Post (R (lines_for doc id s)) s (approve_document doc post_line stamp id s)
  unfolding approve_document
  approve-lines id s {h} step found draft =
      Post-roll_back (R (lines_for doc id s)) s (approval doc post_line stamp id s) (
        rw (approval_open doc post_line stamp id s found draft)
          ((run_lines id h (lines_for doc id s) step).at s))

  -- A call that returned found a draft, and all its lines were posted.
  pub approve-lines_returned :
      (id : ℕ) (s t : Db) (d : Loaded H L) {h : H}
      → ((l : L)
          → Within (λ s t. (ls : List L) (u : Db) → R ls t u → R (l ∷ ls) s u) (post_line h l))
      → find_where (has_id doc.headers id) (doc.headers.rows s) ≡ some h
      → approve_document doc post_line stamp id s ≡ (ok d, t)
      → R (lines_for doc id s) s t
  approve-lines_returned id s t d {h} step found returned = elim (Bool-cases (doc.is_draft h)) [
    | inl draft ↦
        subst (Post (R (lines_for doc id s)) s) returned (approve-lines id s step found draft)
    | inr closed ↦ absurd (cc (approve_closed doc post_line stamp id s found closed, returned))
  ]
