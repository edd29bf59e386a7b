-- ===== src/Examples/Approvals.antt =====
-- Approving the documents of the example company.
use vrindavan.Base.{◌+◌, ◌≡◌, refl, none, some, [], ◌∷◌}
use vrindavan.Exec.{ok, err}
use vrindavan.Db.{Db, document_not_draft}
use vrindavan.Stock.Balances.{total_quantity}
use vrindavan.Stock.Flow.{on_hand}
use vrindavan.Stock.Consistent.{IsConsistent}
use vrindavan.Inventory.Document.{to_domain}
use vrindavan.Inventory.Once.{Kind, approved_once}
use vrindavan.Stock.Dims.{same_dims}
use vrindavan.Stock.Posting.{post_stock_movement}
use vrindavan.Inventory.Reserved
use vrindavan.Inventory.OpeningStock
use vrindavan.Inventory.Transfer
use vrindavan.Inventory.Adjustment
use vrindavan.Inventory.Verification
use vrindavan.Inventory.Damage
use vrindavan.Inventory.Return
use vrindavan.Inventory.System.{
  run, History, post_opening_stock, create_transfer, approve_transfer, create_reserved,
}
use vrindavan.Examples.{
  noon, at, opened, shop, transfer, transfer_line, adjustment, adjustment_line, verification,
  verification_line, damage, damage_line, stock_return, return_line,
}

abbrev after_transfer : Db
after_transfer = (Transfer.approve_transfer noon (some 3) 10 shop).1

transferred : Transfer.approve_transfer noon (some 3) 10 shop ≡ (
  ok (to_domain Transfer.document (Transfer.complete noon (some 3) transfer) (transfer_line ∷ [])),
  after_transfer,
)
unfolding Transfer.approve_transfer post_stock_movement same_dims
transferred = refl

approve_transfer-conserves_example : total_quantity 1 after_transfer.stock_balances ≡ 100
unfolding total_quantity
approve_transfer-conserves_example =
    Transfer.Approval.approve_transfer-conserves noon (some 3) 10 1 shop (refl, tt)

approve_transfer-on_hand_example : on_hand (at 2) after_transfer + 0 ≡ 0 + 30
unfolding Transfer.source_dims Transfer.target_dims same_dims
approve_transfer-on_hand_example =
    Transfer.Approval.approve_transfer-on_hand noon (some 3) 10 shop after_transfer (at 2) transfer
      _ refl transferred

abbrev after_adjustment : Db
after_adjustment = (Adjustment.approve_adjustment noon (some 3) 20 shop).1

adjustment_done : Adjustment.approve_adjustment noon (some 3) 20 shop ≡ (
  ok (
      to_domain Adjustment.document
        (Adjustment.stamp_approved noon (some 3) adjustment)
        (adjustment_line ∷ [])),
  after_adjustment,
)
unfolding Adjustment.approve_adjustment post_stock_movement same_dims
adjustment_done = refl

approve_adjustment-on_hand_example : on_hand (at 1) after_adjustment ≡ 90
unfolding Adjustment.Approval.settled Adjustment.line_dims same_dims
approve_adjustment-on_hand_example =
    Adjustment.Approval.approve_adjustment-on_hand noon (some 3) 20 shop after_adjustment (at 1)
      adjustment _ refl adjustment_done

abbrev after_verification : Db
after_verification = (Verification.complete_verification noon 50 shop).1

verification_done : Verification.complete_verification noon 50 shop ≡ (
  ok (
      to_domain Verification.document
        (Verification.complete noon verification)
        (verification_line ∷ [])),
  after_verification,
)
unfolding Verification.complete_verification post_stock_movement same_dims
verification_done = refl

complete_verification-on_hand_example : on_hand (at 1) after_verification ≡ 104
unfolding Verification.Approval.settled Verification.line_dims same_dims
complete_verification-on_hand_example =
    Verification.Approval.complete_verification-on_hand noon 50 shop after_verification (at 1)
      verification _ refl verification_done

abbrev after_damage : Db
after_damage = (Damage.approve_damage noon (some 3) 30 shop).1

damage_done : Damage.approve_damage noon (some 3) 30 shop ≡ (
  ok (to_domain Damage.document (Damage.stamp_approved noon (some 3) damage) (damage_line ∷ [])),
  after_damage,
)
unfolding Damage.approve_damage post_stock_movement same_dims
damage_done = refl

approve_damage-on_hand_example : on_hand (at 1) after_damage + 5 ≡ 100
unfolding Damage.line_dims same_dims
approve_damage-on_hand_example =
    Damage.Approval.approve_damage-on_hand noon (some 3) 30 shop after_damage (at 1) damage _ refl
      damage_done

abbrev after_return : Db
after_return = (Return.approve_return noon (some 3) 40 shop).1

return_done : Return.approve_return noon (some 3) 40 shop ≡ (
  ok (
      to_domain Return.document
        (Return.stamp_approved noon (some 3) stock_return)
        (return_line ∷ [])),
  after_return,
)
unfolding Return.approve_return post_stock_movement same_dims
return_done = refl

approve_return-on_hand_example : on_hand (at 1) after_return ≡ 107
unfolding Return.line_dims same_dims
approve_return-on_hand_example =
    Return.Approval.approve_return-on_hand noon (some 3) 40 shop after_return (at 1) stock_return _
      refl return_done

approved_once_example :
    Transfer.approve_transfer noon none 10 after_transfer
    ≡ (err (document_not_draft 10), after_transfer)
approved_once_example =
    approved_once Kind.transfer noon noon (some 3) none 10 shop after_transfer _ transferred

abbrev pub week : History
week =
    (noon, post_opening_stock 1 1 100 400 none)
    ∷ (
      noon,
      create_reserved
          (record {
            product_id = 1;
            warehouse_id = 1;
            batch_id = none;
            quantity = 20;
            reference_type = "order";
            reference_id = 7;
            expires_at = 2000;
          })
          none,
    )
    ∷ (
      noon,
      create_transfer
          (record {
            from_warehouse_id = 1;
            to_warehouse_id = 2;
            transfer_date = none;
            remarks = none;
            lines =
                record {
                  product_id = 1;
                  batch_id = none;
                  from_rack_id = none;
                  from_location_id = none;
                  to_rack_id = none;
                  to_location_id = none;
                  quantity = 30;
                }
                ∷ [];
          })
          none,
    )
    ∷ (noon, approve_transfer none 1003)
    ∷ []

pub opened-IsConsistent : IsConsistent opened
opened-IsConsistent = record { derivable = λ d. refl; unique = tt; covered = tt }

-- The week did move stock.
week_moves : on_hand (at 2) (run week opened) ≡ 30
unfolding run Transfer.approve_transfer Transfer.create_transfer Reserved.create_reserved
    OpeningStock.post_opening_stock post_stock_movement same_dims
week_moves = refl
