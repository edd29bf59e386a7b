-- ===== src/Numbering.antt =====
-- Document numbers: document-numbering.helper.ts of backend/src/modules/inventory/infrastructure,
-- and the database function that it calls (database/functions/001_document_numbering.sql).
-- A number is a list of character codes.
mod Text
pub mod Counter
pub mod Collision
pub mod Reading
unfoldable pub use Text.{codes, decimal_from, decimal, lpad, lpad_five, alphanumeric}
use vrindavan.Base.{
  ℕ, ◌+◌, String, Bool, true, false, ◌&&◌, Option, none, some, List, [], ◌∷◌, ◌++◌, ◌==◌,
  find_where, update_where, if◌then◌else◌,
}
use vrindavan.Exec.{◌>>=◌, ◌>>◌, gets, pure, throw, modify, or_throw}
use vrindavan.Db.{
  Db, Trx, SequenceRow, FinancialYearRow, DocumentType, stock_transfer, stock_adjustment,
  damaged_stock, stock_return, physical_verification, no_current_financial_year,
}

-- Document types are compared as text in the database; each has its own name.
unfoldable pub type_code : DocumentType → ℕ
type_code DocumentType.stock_transfer = 0
type_code DocumentType.stock_adjustment = 1
type_code DocumentType.damaged_stock = 2
type_code DocumentType.stock_return = 3
type_code DocumentType.physical_verification = 4
type_code DocumentType.quotation = 5
type_code DocumentType.sales_order = 6
type_code DocumentType.delivery_challan = 7
type_code DocumentType.sales_invoice = 8
type_code DocumentType.customer_payment = 9
type_code DocumentType.sales_return = 10
type_code DocumentType.purchase_order = 11
type_code DocumentType.grn = 12
type_code DocumentType.purchase_invoice = 13
type_code DocumentType.supplier_payment = 14
type_code DocumentType.purchase_return = 15

-- `ON CONFLICT (financial_year_id, document_type)`
unfoldable pub same_sequence : ℕ → DocumentType → SequenceRow → Bool
same_sequence fy t s = s.financial_year_id == fy && type_code s.document_type == type_code t

unfoldable pub bump_sequence : SequenceRow → SequenceRow
bump_sequence s = record s { last_number = s.last_number + 1 }

abbrev pub first_sequence : ℕ → DocumentType → String → SequenceRow
first_sequence fy t prefix = record {
  financial_year_id = fy;
  document_type = t;
  prefix = prefix;
  last_number = 1;
}

-- `INSERT … ON CONFLICT DO UPDATE … RETURNING last_number`
unfoldable pub next_sequence : ℕ → DocumentType → String → Trx ℕ
unfolding same_sequence bump_sequence
next_sequence fy t prefix db = elim (find_where (same_sequence fy t) db.sequences) [
  | none ↦
      (do
        modify (λ db. record db { sequences = db.sequences ++ first_sequence fy t prefix ∷ [] })
        pure 1)
        db
  | some s ↦
      (do
        modify (λ db. record db {
          sequences = update_where (same_sequence fy t) bump_sequence db.sequences;
        })
        pure (s.last_number + 1))
        db
]

-- `COALESCE(regexp_replace(name, '[^0-9A-Za-z]', '', 'g'), 'NA')`
unfoldable pub year_text : Option FinancialYearRow → List ℕ
year_text none = codes "NA"
year_text (some y) = alphanumeric (codes y.name)

unfoldable pub number_text : String → List ℕ → ℕ → List ℕ
number_text prefix year n = codes prefix ++ (codes "-" ++ (year ++ (codes "-" ++ lpad_five n)))

unfoldable pub fn_next_document_number : DocumentType → ℕ → String → Trx (List ℕ)
unfolding next_sequence year_text number_text
fn_next_document_number t fy prefix = do
  next ← next_sequence fy t prefix
  year ← gets (λ db. find_where (λ y. y.id == fy) db.financial_years)
  pure (number_text prefix (year_text year) next)

unfoldable pub get_current_financial_year_id : Trx ℕ
get_current_financial_year_id = do
  found ← gets (λ db. find_where (λ y. y.is_current) db.financial_years)
  fy ← or_throw found no_current_financial_year
  pure fy.id

unfoldable pub next_document_number : DocumentType → String → Trx (List ℕ)
unfolding get_current_financial_year_id fn_next_document_number
next_document_number t prefix = do
  fy ← get_current_financial_year_id
  fn_next_document_number t fy prefix
