-- ===== src/Trade/Document/Laws.antt =====
-- What making and changing a priced document may do to the database: a relation that each of the
-- parts stays within holds of the whole call, whether it returns or throws.
use vrindavan.Base.{ℕ, Bool, not, List, map, find_where}
use vrindavan.Exec.Within.{
  Within, IsPreorder, Within-bind, Within-then, Within-pure, Within-gets, Within-throw_if,
  Within-or_throw, Within-map_each, transaction-holds,
}
use vrindavan.Db.{
  Db, document_not_draft, document_not_found, check_violation, no_current_financial_year,
}
use vrindavan.Tables.{has_id, update_by_id}
use vrindavan.Numbering.{get_current_financial_year_id, next_document_number}
use vrindavan.Inventory.Document.{Document, to_domain, lines_for, insert_row}
use vrindavan.Trade.Document.{Pricing, beside, create_priced, transition}

pub get_current_financial_year_id-holds :
    {R : Db → Db → Type 0} → IsPreorder R → Within R get_current_financial_year_id
unfolding get_current_financial_year_id
get_current_financial_year_id-holds pre =
    Within-bind pre _ _ (Within-gets pre (λ db. find_where (λ y. y.is_current) db.financial_years))
      λ found.
        Within-bind pre _ _ (Within-or_throw pre found no_current_financial_year)
          λ fy. Within-pure pre fy.id

module _ {H L : Type 0} (doc : Document H L) {R : Db → Db → Type 0} (pre : IsPreorder R) where
  pub create_priced-holds :
      {Y P C : Type 0} (pricing : Pricing H L Y P C) (props : List P)
      → Within R pricing.year
      → Within R (next_document_number doc.document_type doc.prefix)
      → ((y : Y) (cs : List C) (number : List ℕ)
          → Within R (insert_row doc doc.headers (pricing.new_header y cs number)))
      → ((h : H) (p : P) (c : C) → Within R (insert_row doc doc.line_rows (pricing.new_line h p c)))
      → (s : Db) → R s (create_priced doc pricing props s).1
  unfolding create_priced
  create_priced-holds pricing props year number header line s = transaction-holds pre _ s (
      Within-bind pre _ _ year λ y. Within-bind pre _ _ number λ n.
        Within-bind pre _ _ (Within-gets pre (λ db. map (λ p. pricing.price p db) props)) λ cs.
          Within-then pre _ _ (Within-throw_if pre (pricing.refused cs) check_violation) (
            Within-bind pre _ _ (header y cs n) λ h.
              Within-bind pre _ _ (Within-map_each pre (beside props cs) _ (λ l. line h l.0 l.1))
                λ ls. Within-pure pre (to_domain doc h ls)))

  pub transition-holds :
      (allowed : H → Bool) (stamp : H → H) (id : ℕ)
      → Within R (update_by_id doc.headers id stamp)
      → (s : Db) → R s (transition doc allowed stamp id s).1
  unfolding transition
  transition-holds allowed stamp id update s = transaction-holds pre _ s (
      Within-bind pre _ _
        (Within-gets pre (λ db. find_where (has_id doc.headers id) (doc.headers.rows db)))
        λ found. Within-bind pre _ _ (Within-or_throw pre found (document_not_found id)) λ h.
          Within-then pre _ _ (Within-throw_if pre (not (allowed h)) (document_not_draft id)) (
            Within-bind pre _ _ update λ updated.
              Within-bind pre _ _ (Within-gets pre (lines_for doc id))
                λ ls. Within-pure pre (to_domain doc updated ls)))
