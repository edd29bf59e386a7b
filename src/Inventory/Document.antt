-- ===== src/Inventory/Document.antt =====
-- What the repositories of the five stock documents have in common (backend/src/modules/inventory/
-- infrastructure/*.kysely-repository.ts): a header table and a table of lines, and the same shape of
-- `findAll`, `findById`, `createWithLines`, `approve` and `delete`. Each document fills in its
-- tables, its posting of a line and the columns that it stamps.
pub mod Laws
pub mod Lines
pub mod Draft
pub mod Raises
pub mod Returns
pub mod Posted
pub mod RoundTrip
pub mod Spares
use vrindavan.Base.{
  ℕ, String, Bool, not, ◌&&◌, Option, none, some, List, map, ◌==◌, any, select_where, delete_where,
  order_by_desc, if◌then◌else◌,
}
use vrindavan.Exec.{
  ◌>>=◌, ◌>>◌, gets, pure, transaction, or_throw, throw_if, modify, for_each, map_each,
}
use vrindavan.Db.{Db, Trx, DocumentType, gen_random_uuid, document_not_found, document_not_draft}
use vrindavan.Tables.{Table, find_by_id, insert, update_by_id, delete_all}
use vrindavan.Numbering.{next_document_number}

-- A document as the repositories return it: the header's fields and the lines.
pub record Loaded (H L : Type 0) : Type 0 where
  pub header : H
  pub lines : List L

pub record Document (H L : Type 0) : Type 0 where
  pub headers : Table H
  pub line_rows : Table L
  -- the foreign key of a line
  pub parent_of : L → ℕ
  pub is_draft : H → Bool
  pub date_of : H → ℕ
  pub document_type : DocumentType
  pub prefix : String

module _ {H L : Type 0} (doc : Document H L) where
  abbrev pub to_domain : H → List L → Loaded H L
  to_domain header lines = record { header = header; lines = lines }

  -- `linesFor`
  abbrev pub lines_for : ℕ → Db → List L
  lines_for id db = select_where (λ l. doc.parent_of l == id) (doc.line_rows.rows db)

  unfoldable pub find_all : Trx (List (Loaded H L))
  find_all = gets λ db.
      map (λ h. to_domain h (lines_for (doc.headers.id_of h) db))
        (order_by_desc doc.date_of (doc.headers.rows db))

  unfoldable pub find_document : ℕ → Trx (Option (Loaded H L))
  find_document id = do
    found ← find_by_id doc.headers id
    lines ← gets (lines_for id)
    pure (elim found [ none ↦ none | some header ↦ some (to_domain header lines) ])

  -- A row of the document: `insertInto(…).values(…).returningAll()`, under a fresh id.
  abbrev pub insert_row : {R : Type 0} → Table R → (ℕ → R) → Trx R
  insert_row table values = do id ← gen_random_uuid; insert table (values id); pure (values id)

  -- `createWithLines`: a number, the header, and then line after line.
  unfoldable pub create_document :
      {P : Type 0} → (List ℕ → ℕ → H) → List P → (H → P → Trx L) → Trx (Loaded H L)
  unfolding next_document_number map_each
  create_document new_header line_props insert_line = transaction (do
    number ← next_document_number doc.document_type doc.prefix
    header ← insert_row doc.headers (new_header number)
    lines ← map_each line_props (insert_line header)
    pure (to_domain header lines))

  -- The callback of `approve`'s transaction: guards, postings, and the stamped header.
  unfoldable pub approval : (H → L → Trx (Unit {0})) → (H → H) → ℕ → Trx (Loaded H L)
  unfolding for_each
  approval post_line stamp id = do
    found ← find_by_id doc.headers id
    header ← or_throw found (document_not_found id)
    throw_if (not (doc.is_draft header)) (document_not_draft id)
    rows ← gets (lines_for id)
    for_each rows (post_line header)
    updated ← update_by_id doc.headers id stamp
    pure (to_domain updated rows)

  unfoldable pub approve_document : (H → L → Trx (Unit {0})) → (H → H) → ℕ → Trx (Loaded H L)
  unfolding approval
  approve_document post_line stamp id = transaction (approval post_line stamp id)

  -- `delete`: drafts only. The lines go with their header (`ON DELETE CASCADE`).
  unfoldable pub delete_document : ℕ → Trx Bool
  delete_document id = do
    deleted ← delete_all doc.headers (λ h. doc.headers.id_of h == id && doc.is_draft h)
    lines_deleted ← delete_all doc.line_rows (λ l. deleted && doc.parent_of l == id)
    pure deleted
