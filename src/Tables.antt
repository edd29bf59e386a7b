-- ===== src/Tables.antt =====
-- One table of the database, and the queries that the repositories make of it through Kysely.
pub mod Ids
pub mod Sales
pub mod Purchase
use vrindavan.Base.{
  ℕ, Bool, Option, List, [], ◌∷◌, ◌++◌, ◌==◌, any, find_where, delete_where, update_where,
}
use vrindavan.Exec.{◌>>=◌, ◌>>◌, gets, modify, or_throw, pure}
use vrindavan.Db.{
  Db, Trx, no_result, TransferRow, TransferLineRow, AdjustmentRow, AdjustmentLineRow, DamageRow,
  DamageLineRow, ReturnRow, ReturnLineRow, VerificationRow, VerificationLineRow, ReservedRow,
  BlockedRow,
}

pub record Table (R : Type 0) : Type 0 where
  pub id_of : R → ℕ
  pub rows : Db → List R
  pub put : List R → Db → Db

module _ {R : Type 0} (table : Table R) where
  abbrev pub has_id : ℕ → R → Bool
  has_id id r = table.id_of r == id

  -- `selectFrom(t).selectAll().where('id', '=', id).executeTakeFirst()`
  abbrev pub find_by_id : ℕ → Trx (Option R)
  find_by_id id = gets (λ db. find_where (has_id id) (table.rows db))

  -- `insertInto(t).values(r)`
  abbrev pub insert : R → Trx (Unit {0})
  insert r = modify (λ db. table.put (table.rows db ++ r ∷ []) db)

  -- `updateTable(t).set(f).where('id', '=', id).returningAll().executeTakeFirstOrThrow()`
  abbrev pub update_by_id : ℕ → (R → R) → Trx R
  update_by_id id f = do
    modify (λ db. table.put (update_where (has_id id) f (table.rows db)) db)
    updated ← find_by_id id
    or_throw updated no_result

  -- `updateTable(t).set(f).where(p)`
  abbrev pub update_all : (R → Bool) → (R → R) → Trx (Unit {0})
  update_all p f = modify (λ db. table.put (update_where p f (table.rows db)) db)

  -- `deleteFrom(t).where(p)`, and whether a row was deleted
  abbrev pub delete_all : (R → Bool) → Trx Bool
  delete_all p = do
    deleted ← gets (λ db. any p (table.rows db))
    modify (λ db. table.put (delete_where p (table.rows db)) db)
    pure deleted

abbrev pub stock_transfers : Table TransferRow
stock_transfers = record {
  id_of = λ r. r.id;
  rows = λ db. db.stock_transfers;
  put = λ rows db. record db { stock_transfers = rows };
}

abbrev pub stock_transfer_lines : Table TransferLineRow
stock_transfer_lines = record {
  id_of = λ r. r.id;
  rows = λ db. db.stock_transfer_lines;
  put = λ rows db. record db { stock_transfer_lines = rows };
}

abbrev pub stock_adjustments : Table AdjustmentRow
stock_adjustments = record {
  id_of = λ r. r.id;
  rows = λ db. db.stock_adjustments;
  put = λ rows db. record db { stock_adjustments = rows };
}

abbrev pub stock_adjustment_lines : Table AdjustmentLineRow
stock_adjustment_lines = record {
  id_of = λ r. r.id;
  rows = λ db. db.stock_adjustment_lines;
  put = λ rows db. record db { stock_adjustment_lines = rows };
}

abbrev pub damaged_stock : Table DamageRow
damaged_stock = record {
  id_of = λ r. r.id;
  rows = λ db. db.damaged_stock;
  put = λ rows db. record db { damaged_stock = rows };
}

abbrev pub damaged_stock_lines : Table DamageLineRow
damaged_stock_lines = record {
  id_of = λ r. r.id;
  rows = λ db. db.damaged_stock_lines;
  put = λ rows db. record db { damaged_stock_lines = rows };
}

abbrev pub stock_returns : Table ReturnRow
stock_returns = record {
  id_of = λ r. r.id;
  rows = λ db. db.stock_returns;
  put = λ rows db. record db { stock_returns = rows };
}

abbrev pub stock_return_lines : Table ReturnLineRow
stock_return_lines = record {
  id_of = λ r. r.id;
  rows = λ db. db.stock_return_lines;
  put = λ rows db. record db { stock_return_lines = rows };
}

abbrev pub physical_verifications : Table VerificationRow
physical_verifications = record {
  id_of = λ r. r.id;
  rows = λ db. db.physical_verifications;
  put = λ rows db. record db { physical_verifications = rows };
}

abbrev pub physical_verification_lines : Table VerificationLineRow
physical_verification_lines = record {
  id_of = λ r. r.id;
  rows = λ db. db.physical_verification_lines;
  put = λ rows db. record db { physical_verification_lines = rows };
}

abbrev pub reserved_stock : Table ReservedRow
reserved_stock = record {
  id_of = λ r. r.id;
  rows = λ db. db.reserved_stock;
  put = λ rows db. record db { reserved_stock = rows };
}

abbrev pub blocked_stock_entries : Table BlockedRow
blocked_stock_entries = record {
  id_of = λ r. r.id;
  rows = λ db. db.blocked_stock_entries;
  put = λ rows db. record db { blocked_stock_entries = rows };
}
