-- ===== src/Examples/Posting.antt =====
-- Postings, numbers and opening stock of the example company.
use vrindavan.Base.{◌+◌, ◌*◌, ◌≤◌, ◌≡◌, refl, arith, none, some, [], ◌∷◌}
use vrindavan.Exec.{ok, err}
use vrindavan.Db.{
  Db, DocumentType, MovementType, ReferenceType, opening_stock_already_posted, check_violation,
}
use vrindavan.Numbering.{next_sequence, number_text, codes, same_sequence, type_code}
use vrindavan.Numbering.Reading.{read_number, number_text-read}
use vrindavan.Numbering.Counter.{last_number_of, next_sequence-counts}
use vrindavan.Numbering.Collision.{number_text-collides}
use vrindavan.Stock.Dims.{same_dims}
use vrindavan.Stock.Posting.{PostMovementInput, post_stock_movement}
use vrindavan.Stock.Trigger.{new_average_cost}
use vrindavan.Stock.Verdict.{verdict, post_stock_movement-verdict}
use vrindavan.Stock.Cost.{new_average_cost_between, new_average_cost_nearest}
use vrindavan.Inventory.OpeningStock.{post_opening_stock}
use vrindavan.Inventory.OpeningStock.Once.{post_opening_stock_twice}
use vrindavan.Examples.{noon, at, opened, shop, opening}

-- 80 of the 100 on the shelf, of which 30 are reserved or blocked.
abbrev sale : PostMovementInput
sale = record {
  dims = at 1;
  movement_type = MovementType.sales_out;
  qty_in = none;
  qty_out = some 80;
  unit_cost = none;
  reference_type = ReferenceType.product;
  reference_id = 1;
  reference_line_id = none;
  remarks = none;
  created_by = none;
}

post_stock_movement-verdict_example : (post_stock_movement noon sale shop).0 ≡ err check_violation
unfolding verdict same_dims
post_stock_movement-verdict_example = post_stock_movement-verdict noon sale shop (refl, tt)

new_average_cost_between_example :
    (300 ≤ new_average_cost (record opening { unit_cost = 300 }) 50 450)
    × (new_average_cost (record opening { unit_cost = 300 }) 50 450 ≤ 450)
new_average_cost_between_example =
    new_average_cost_between (record opening { unit_cost = 300 }) 50 450 (omega arith) (omega arith)

new_average_cost_nearest_example :
    (2 * (new_average_cost opening 50 450 * 150) ≤ 2 * 62500 + 150)
    × (2 * 62500 ≤ 2 * (new_average_cost opening 50 450 * 150) + 150)
new_average_cost_nearest_example =
    new_average_cost_nearest opening 50 450 (omega arith) (omega arith)

abbrev counting : Db
counting = record opened {
  sequences =
      record {
        financial_year_id = 5;
        document_type = DocumentType.damaged_stock;
        prefix = "DMG";
        last_number = 41;
      }
      ∷ [];
}

next_sequence-counts_example :
    ((next_sequence 5 DocumentType.damaged_stock "DMG" counting).0 ≡ ok 42)
    × (last_number_of 5 DocumentType.damaged_stock
          (next_sequence 5 DocumentType.damaged_stock "DMG" counting).1.sequences
        ≡ 42)
unfolding same_sequence type_code
next_sequence-counts_example =
    next_sequence-counts 5 5 DocumentType.damaged_stock DocumentType.damaged_stock "DMG" counting

number_text-read_example :
    read_number "TRF" (codes "202526") (number_text "TRF" (codes "202526") 80) ≡ 80
number_text-read_example = number_text-read "TRF" (codes "202526") 80 (omega arith)

number_text-collides_example :
    number_text "TRF" (codes "202526") 123456 ≡ number_text "TRF" (codes "202526") 12345
number_text-collides_example =
    number_text-collides "TRF" (codes "202526") 12345 6 (omega arith) (omega arith) (omega arith)

abbrev stocked : Db
stocked = (post_opening_stock noon 1 1 100 400 none opened).1

post_opening_stock_twice_example :
    post_opening_stock noon 1 2 50 300 none stocked
    ≡ (err (opening_stock_already_posted 1), stocked)
unfolding post_opening_stock post_stock_movement
post_opening_stock_twice_example =
    post_opening_stock_twice noon 1 1 100 400 none noon 2 50 300 none opened stocked refl
