-- ===== src/Inventory/Document/Raises.antt =====
-- Which exceptions approving a document throws, and that it is atomic.
use vrindavan.Base.{ℕ, ◌≡◌, not}
use vrindavan.Exec.{err, gets, or_throw, throw_if, for_each}
use vrindavan.Exec.Raises.{
  Raises, Raises-bind, Raises-then, Raises-pure, Raises-throw_if, Raises-or_throw, Raises-for_each,
  Raises-transaction, transaction-atomic,
}
use vrindavan.Db.{Db, Trx, Error, document_not_found, document_not_draft, no_result}
use vrindavan.Tables.{find_by_id, update_by_id}
use vrindavan.Inventory.Document.{Document, to_domain, lines_for, approval, approve_document}

module _ {H L : Type 0} (doc : Document H L) (post_line : H → L → Trx (Unit {0}))
    (stamp : H → H) where
  pub approval-Raises :
      (P : Error → Type 0) (id : ℕ)
      → P (document_not_found id)
      → P (document_not_draft id)
      → P no_result
      → ((h : H) (l : L) → Raises P (post_line h l))
      → Raises P (approval doc post_line stamp id)
  unfolding approval
  approval-Raises P id missing closed gone posts =
      Raises-bind P (find_by_id doc.headers id) _ (record { at = λ s. tt })
        λ found.
          Raises-bind P (or_throw found (document_not_found id)) _
            (Raises-or_throw P found _ missing)
            λ header.
              Raises-then P (throw_if (not (doc.is_draft header)) (document_not_draft id)) _
                (Raises-throw_if P _ _ closed)
                (Raises-bind P (gets (lines_for doc id)) _ (record { at = λ s. tt })
                  λ rows.
                    Raises-then P (for_each rows (post_line header)) _
                      (Raises-for_each P rows (post_line header) (posts header))
                      (Raises-bind P (update_by_id doc.headers id stamp) _
                        (record { at = λ s. (Raises-or_throw P _ no_result gone).at _ })
                        λ updated. Raises-pure P (to_domain doc updated rows)))

  pub approve_document-Raises :
      (P : Error → Type 0) (id : ℕ)
      → P (document_not_found id)
      → P (document_not_draft id)
      → P no_result
      → ((h : H) (l : L) → Raises P (post_line h l))
      → Raises P (approve_document doc post_line stamp id)
  unfolding approve_document
  approve_document-Raises P id missing closed gone posts =
      Raises-transaction P _ (approval-Raises P id missing closed gone posts)

  -- Approving that throws has written nothing.
  pub approve_document-atomic :
      (id : ℕ) (s t : Db) (e : Error)
      → approve_document doc post_line stamp id s ≡ (err e, t)
      → t ≡ s
  unfolding approve_document
  approve_document-atomic id s t e = transaction-atomic (approval doc post_line stamp id) s t e
