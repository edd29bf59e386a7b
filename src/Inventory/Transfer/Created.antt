-- ===== src/Inventory/Transfer/Created.antt =====
-- A stock transfer that was created is found (`createWithLines` and `findById` of
-- stock-transfer.kysely-repository.ts).
use vrindavan.Base.{ℕ, ◌≡◌, refl, some, Option, ==_refl}
use vrindavan.Exec.{ok}
use vrindavan.Db.{Db, Clock, TransferRow}
use vrindavan.Inventory.Document.RoundTrip.{IsStored, Fresh, Yield, Appends, create_document-find}
use vrindavan.Inventory.Transfer.{
  CreateStockTransferProps, CreateStockTransferLineProps, StockTransfer, document, header_values,
  line_values, insert_line, create_transfer, find_transfer,
}

pub document-IsStored : IsStored document
document-IsStored = record {
  headers-put = λ xs db. refl;
  lines-put = λ xs db. refl;
  lines-headers_put = λ xs db. refl;
  headers-lines_put = λ xs db. refl;
  headers-sequences = λ s t. refl;
  lines-sequences = λ s t. refl;
  headers-drawn = λ s. refl;
  lines-drawn = λ s. refl;
}

insert_line-Appends :
    (h : TransferRow) (p : CreateStockTransferLineProps) (s : Db)
    → Yield (Appends document document-IsStored h s) (insert_line h p s)
unfolding insert_line line_values
insert_line-Appends h p s = (refl, (refl, ==_refl h.id))

-- A stock transfer that `createWithLines` returned is what `findById` finds under its id, the lines in
-- their order, where the id that is drawn for it is on no row yet.
pub create_transfer-find :
    (clock : Clock) (props : CreateStockTransferProps) (by : Option ℕ) (s t : Db)
    (d : StockTransfer)
    → Fresh document document-IsStored s
    → create_transfer clock props by s ≡ (ok d, t)
    → find_transfer d.header.id t ≡ (ok (some d), t)
unfolding create_transfer find_transfer header_values
create_transfer-find clock props by =
    create_document-find document document-IsStored (header_values clock props by) props.lines
      insert_line (λ n id. refl) insert_line-Appends
