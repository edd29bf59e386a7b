-- ===== src/Inventory/Services/Documents.antt =====
-- The repositories of the five documents, as the services know them, and what each service answers
-- (StockTransfersService, StockAdjustmentsService, PhysicalVerificationsService, DamagedStockService
-- and StockReturnsService of backend/src/modules/inventory/application).

use vrindavan.Inventory.Services.{
  DocumentRepository, DocumentService, serve, answer_document, answer_movement,
}
use vrindavan.Inventory.Transfer
use vrindavan.Inventory.Adjustment
use vrindavan.Inventory.Verification
use vrindavan.Inventory.Damage
use vrindavan.Inventory.Return

abbrev pub transfers : DocumentRepository Transfer.StockTransfer Transfer.CreateStockTransferProps
transfers = record {
  find_all = Transfer.find_transfers;
  find_by_id = Transfer.find_transfer;
  create_with_lines = Transfer.create_transfer;
  approve = Transfer.approve_transfer;
  delete = Transfer.delete_transfer;
}

abbrev pub adjustments :
    DocumentRepository Adjustment.StockAdjustment Adjustment.CreateStockAdjustmentProps
adjustments = record {
  find_all = Adjustment.find_adjustments;
  find_by_id = Adjustment.find_adjustment;
  create_with_lines = Adjustment.create_adjustment;
  approve = Adjustment.approve_adjustment;
  delete = Adjustment.delete_adjustment;
}

abbrev pub verifications :
    DocumentRepository Verification.PhysicalVerification
      Verification.CreatePhysicalVerificationProps
verifications = record {
  find_all = Verification.find_verifications;
  find_by_id = Verification.find_verification;
  create_with_lines = Verification.create_verification;
  approve = (λ clock by. Verification.complete_verification clock);
  delete = Verification.delete_verification;
}

abbrev pub damages : DocumentRepository Damage.DamagedStock Damage.CreateDamagedStockProps
damages = record {
  find_all = Damage.find_damages;
  find_by_id = Damage.find_damage;
  create_with_lines = Damage.create_damage;
  approve = Damage.approve_damage;
  delete = Damage.delete_damage;
}

abbrev pub returns : DocumentRepository Return.StockReturn Return.CreateStockReturnProps
returns = record {
  find_all = Return.find_returns;
  find_by_id = Return.find_return;
  create_with_lines = Return.create_return;
  approve = Return.approve_return;
  delete = Return.delete_return;
}

unfoldable pub stock_transfers_service :
    DocumentService Transfer.StockTransfer Transfer.CreateStockTransferProps
unfolding serve answer_movement
stock_transfers_service = serve transfers answer_movement

unfoldable pub stock_adjustments_service :
    DocumentService Adjustment.StockAdjustment Adjustment.CreateStockAdjustmentProps
unfolding serve answer_document
stock_adjustments_service = serve adjustments answer_document

unfoldable pub physical_verifications_service :
    DocumentService Verification.PhysicalVerification Verification.CreatePhysicalVerificationProps
unfolding serve answer_document
physical_verifications_service = serve verifications answer_document

unfoldable pub damaged_stock_service :
    DocumentService Damage.DamagedStock Damage.CreateDamagedStockProps
unfolding serve answer_movement
damaged_stock_service = serve damages answer_movement

unfoldable pub stock_returns_service :
    DocumentService Return.StockReturn Return.CreateStockReturnProps
unfolding serve answer_document
stock_returns_service = serve returns answer_document
