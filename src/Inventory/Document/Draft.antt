-- ===== src/Inventory/Document/Draft.antt =====
-- Making and deleting a draft leaves the stock tables as they were (`createWithLines` and `delete`).
use vrindavan.Base.{ℕ, ap, refl, List}
use vrindavan.Exec.Within.{Within}
use vrindavan.Db.{Db, Trx, LedgerRow, BalanceRow}
use vrindavan.Stock.Consistent.{IsConsistent, Keeps}
use vrindavan.Inventory.Document.{Document, create_document, delete_document}
use vrindavan.Inventory.Document.Laws.{IsConsistent-SameStock}
use vrindavan.Inventory.Document.Spares.{
  Spares, IsOutside, IsBlind, create_document-Spares, delete_document-Spares,
}

abbrev pub stock_tables : Db → List LedgerRow × List BalanceRow
stock_tables db = (db.stock_ledger, db.stock_balances)

pub stock_tables-IsBlind : IsBlind stock_tables
stock_tables-IsBlind = record { draws = λ s. refl; numbers = λ s t. refl }

pub spared-IsConsistent : (s t : Db) → Spares stock_tables s t → Keeps IsConsistent s t
spared-IsConsistent s t spares =
    IsConsistent-SameStock s t (ap (λ x. x.0) spares.0, ap (λ x. x.1) spares.0)

module _ {H L : Type 0} (doc : Document H L) (headers : IsOutside stock_tables doc.headers) where
  pub create_document-IsConsistent :
      {P : Type 0} (new_header : List ℕ → ℕ → H) (props : List P) (insert_line : H → P → Trx L)
      → ((h : H) (p : P) → Within (Spares stock_tables) (insert_line h p))
      → (s : Db) → IsConsistent s
      → IsConsistent (create_document doc new_header props insert_line s).1
  create_document-IsConsistent new_header props insert_line lines s =
      spared-IsConsistent s (create_document doc new_header props insert_line s).1 (
        create_document-Spares stock_tables stock_tables-IsBlind doc headers new_header props
          insert_line lines s)

  pub delete_document-IsConsistent :
      IsOutside stock_tables doc.line_rows
      → (id : ℕ) (s : Db) → IsConsistent s
      → IsConsistent (delete_document doc id s).1
  delete_document-IsConsistent lines id s =
      spared-IsConsistent s (delete_document doc id s).1
        (delete_document-Spares stock_tables doc headers lines id s)
