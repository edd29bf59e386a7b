-- ===== src/Examples/Answers.antt =====
-- What the services answer in the example company, when an approval fails.
use vrindavan.Base.{◌≡◌, refl, true, none, []}
use vrindavan.Db.{Db, insufficient_stock}
use vrindavan.Stock.Dims.{same_dims}
use vrindavan.Stock.Posting.{post_stock_movement}
use vrindavan.Inventory.Transfer.{approve_transfer}
use vrindavan.Inventory.Services.{conflict, message_of}
use vrindavan.Inventory.Services.Documents.{stock_transfers_service}
use vrindavan.Inventory.Services.Answers.{is_answer}
use vrindavan.Inventory.Services.Failures.{stock_transfers_service-fails}
use vrindavan.Examples.{noon, shop}

abbrev bare : Db
bare = record shop { stock_balances = [] }

stock_transfers_service-fails_example :
    (is_answer (conflict (message_of (insufficient_stock "Tea" 0 30000000))) ≡ true) × (bare ≡ bare)
stock_transfers_service-fails_example =
    stock_transfers_service-fails noon none 10 bare bare
      (conflict (message_of (insufficient_stock "Tea" 0 30000000)))
      (unfold stock_transfers_service in
        unfold approve_transfer in unfold post_stock_movement in unfold same_dims in refl)
