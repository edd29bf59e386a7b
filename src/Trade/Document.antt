-- ===== src/Trade/Document.antt =====
-- Documents whose header and lines are priced when they are made (`createWithLines` of quotations,
-- orders and invoices), and changes of a document's status that write nothing else (`approve` and
-- `cancel` of orders, `approve` of invoices, `transitionStatus` of quotations).
pub mod Laws
pub mod RoundTrip
use vrindavan.Base.{ℕ, Bool, not, List, [], ◌∷◌, map}
use vrindavan.Exec.{◌>>=◌, ◌>>◌, gets, pure, transaction, or_throw, throw_if, map_each}
use vrindavan.Db.{Db, Trx, document_not_found, document_not_draft, check_violation}
use vrindavan.Tables.{find_by_id, update_by_id}
use vrindavan.Numbering.{next_document_number}
use vrindavan.Inventory.Document.{Document, Loaded, to_domain, lines_for, insert_row}

-- `props.lines[i]` beside `computed[i]`.
abbrev pub beside : {P C : Type 0} → List P → List C → List (P × C)
beside [] cs = []
beside (p ∷ ps) [] = []
beside (p ∷ ps) (c ∷ cs) = (p, c) ∷ beside ps cs

-- How a document is priced: what is read for its year and computed for each line, when the
-- database refuses the header that comes of it, and the columns of header and lines.
pub record Pricing (H L Y P C : Type 0) : Type 0 where
  pub year : Trx Y
  pub price : P → Db → C
  pub refused : List C → Bool
  pub new_header : Y → List C → List ℕ → ℕ → H
  pub new_line : H → P → C → ℕ → L

module _ {H L : Type 0} (doc : Document H L) where
  unfoldable pub create_priced : {Y P C : Type 0} → Pricing H L Y P C → List P → Trx (Loaded H L)
  unfolding map_each
  create_priced pricing props = transaction (do
    year ← pricing.year
    number ← next_document_number doc.document_type doc.prefix
    computed ← gets (λ db. map (λ p. pricing.price p db) props)
    throw_if (pricing.refused computed) check_violation
    header ← insert_row doc doc.headers (pricing.new_header year computed number)
    lines ←
        map_each (beside props computed)
          (λ l. insert_row doc doc.line_rows (pricing.new_line header l.0 l.1))
    pure (to_domain doc header lines))

  unfoldable pub transition : (H → Bool) → (H → H) → ℕ → Trx (Loaded H L)
  transition allowed stamp id = transaction (do
    found ← find_by_id doc.headers id
    header ← or_throw found (document_not_found id)
    throw_if (not (allowed header)) (document_not_draft id)
    updated ← update_by_id doc.headers id stamp
    lines ← gets (lines_for doc id)
    pure (to_domain doc updated lines))
