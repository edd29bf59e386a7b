-- ===== src/Examples/Holds.antt =====
-- Reserved and blocked stock, and the services' answers, for the example company.
use vrindavan.Base.{◌+◌, ◌≡◌, refl, none, some}
use vrindavan.Exec.{ok}
use vrindavan.Db.{Db}
use vrindavan.Stock.Dims.{coalesce}
use vrindavan.Inventory.Reserved
use vrindavan.Inventory.Blocked
use vrindavan.Examples.{noon, shop}

abbrev booking : Reserved.CreateReservedStockProps
booking = record {
  product_id = 1;
  warehouse_id = 1;
  batch_id = none;
  quantity = 15;
  reference_type = "order";
  reference_id = 7;
  expires_at = 2000;
}

abbrev quarantine : Blocked.CreateBlockedStockProps
quarantine = record {
  product_id = 1;
  warehouse_id = 1;
  rack_id = some 5;
  location_id = none;
  batch_id = none;
  quantity = 10;
  reason = "leak";
}

abbrev booked : Db
booked = (Reserved.create_reserved noon booking none shop).1

create_reserved-total_example : Reserved.Once.reserved_total booked.stock_balances ≡ 20 + (15 + 0)
unfolding Reserved.reserved_at Reserved.reserved_values coalesce
create_reserved-total_example =
    Reserved.Once.create_reserved-total noon booking none shop booked
      (Reserved.reserved_values noon booking none 1000) (unfold Reserved.create_reserved in refl)

release_reserved_twice_example :
    Reserved.release_reserved noon 1000 (Reserved.release_reserved noon 1000 booked).1
    ≡ (ok none, (Reserved.release_reserved noon 1000 booked).1)
release_reserved_twice_example = Reserved.Once.release_reserved_twice noon noon 1000 booked

abbrev shut : Db
shut = (Blocked.create_blocked noon quarantine none shop).1

create_blocked-total_example : Blocked.Once.blocked_total shut.stock_balances ≡ 10 + (10 + 0)
unfolding Blocked.blocked_at Blocked.blocked_values coalesce
create_blocked-total_example =
    Blocked.Once.create_blocked-total noon quarantine none shop shut
      (Blocked.blocked_values noon quarantine none 1000) (unfold Blocked.create_blocked in refl)
