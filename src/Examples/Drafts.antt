-- ===== src/Examples/Drafts.antt =====
-- Drafts of the example company, and what approving them needs.
use vrindavan.Base.{◌≡◌, refl, true, arith, none, some, [], ◌∷◌}
use vrindavan.Exec.{ok}
use vrindavan.Db.{Db, TransferRow}
use vrindavan.Numbering.{number_text, year_text}
use vrindavan.Stock.Dims.{same_dims}
use vrindavan.Stock.Consistent.{IsConsistent}
use vrindavan.Inventory.Document.{to_domain}
use vrindavan.Inventory.Document.Returns.{is_ok}
use vrindavan.Inventory.Transfer
use vrindavan.Examples.{transfer, transfer_line, noon, this_year, shop}

shop-IsConsistent : IsConsistent shop
shop-IsConsistent = record {
  derivable = λ d. ground arith;
  unique = (refl, tt);
  covered = (omega arith, tt);
}

-- Every dimension other than the line's has nothing to give and nothing to lose.
transfer_covered : Transfer.Returns.CoversLines transfer (transfer_line ∷ []) shop shop
unfolding same_dims
transfer_covered d = ground arith

approve_transfer-returns_example : is_ok (Transfer.approve_transfer noon none 10 shop).0 ≡ true
approve_transfer-returns_example =
    Transfer.Returns.approve_transfer-returns noon none 10 shop transfer shop-IsConsistent refl refl
      (omega arith, tt) transfer_covered

abbrev move_line : Transfer.CreateStockTransferLineProps
move_line = record {
  product_id = 1;
  batch_id = none;
  from_rack_id = none;
  from_location_id = none;
  to_rack_id = none;
  to_location_id = none;
  quantity = 30;
}

abbrev move : Transfer.CreateStockTransferProps
move = record {
  from_warehouse_id = 1;
  to_warehouse_id = 2;
  transfer_date = none;
  remarks = none;
  lines = move_line ∷ [];
}

abbrev moved : Db
moved = (Transfer.create_transfer noon move none shop).1

abbrev moving : TransferRow
moving =
    Transfer.header_values noon move none (number_text "TRF" (year_text (some this_year)) 1) 1000

abbrev made : Transfer.StockTransfer
made = to_domain Transfer.document moving (Transfer.line_values moving move_line 1001 ∷ [])

created : Transfer.create_transfer noon move none shop ≡ (ok made, moved)
unfolding Transfer.create_transfer
created = refl

create_transfer-find_example : Transfer.find_transfer made.header.id moved ≡ (ok (some made), moved)
create_transfer-find_example =
    Transfer.Created.create_transfer-find noon move none shop moved made
      (record { headers = refl; lines = refl }) created
