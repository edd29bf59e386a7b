-- ===== src/Inventory/Damage/Created.antt =====
-- A record of damaged stock that was created is found (`createWithLines` and `findById` of
-- damaged-stock.kysely-repository.ts).
use vrindavan.Base.{ℕ, ◌≡◌, refl, some, Option, ==_refl}
use vrindavan.Exec.{ok}
use vrindavan.Db.{Db, Clock, DamageRow}
use vrindavan.Inventory.Document.RoundTrip.{IsStored, Fresh, Yield, Appends, create_document-find}
use vrindavan.Inventory.Damage.{
  CreateDamagedStockProps, CreateDamagedStockLineProps, DamagedStock, document, header_values,
  line_values, insert_line, create_damage, find_damage,
}

pub document-IsStored : IsStored document
document-IsStored = record {
  headers-put = λ xs db. refl;
  lines-put = λ xs db. refl;
  lines-headers_put = λ xs db. refl;
  headers-lines_put = λ xs db. refl;
  headers-sequences = λ s t. refl;
  lines-sequences = λ s t. refl;
  headers-drawn = λ s. refl;
  lines-drawn = λ s. refl;
}

insert_line-Appends :
    (h : DamageRow) (p : CreateDamagedStockLineProps) (s : Db)
    → Yield (Appends document document-IsStored h s) (insert_line h p s)
unfolding insert_line line_values
insert_line-Appends h p s = (refl, (refl, ==_refl h.id))

-- A record of damaged stock that `createWithLines` returned is what `findById` finds under its id,
-- the lines in their order, where the id that is drawn for it is on no row yet.
pub create_damage-find :
    (clock : Clock) (props : CreateDamagedStockProps) (by : Option ℕ) (s t : Db) (d : DamagedStock)
    → Fresh document document-IsStored s
    → create_damage clock props by s ≡ (ok d, t)
    → find_damage d.header.id t ≡ (ok (some d), t)
unfolding create_damage find_damage header_values
create_damage-find clock props by =
    create_document-find document document-IsStored (header_values clock props by) props.lines
      insert_line (λ n id. refl) insert_line-Appends
