-- ===== src/Purchase/Services.antt =====
-- The services of purchase (backend/src/modules/purchase/application/*.service.ts): which HTTP exception
-- answers for which outcome of a repository.
pub mod Failures
use vrindavan.Base.{ℕ, Option, List}
use vrindavan.Db.{Clock}
use vrindavan.Inventory.Services.{
  HttpException, Service, DocumentRepository, DocumentService, catch_with, serve, answer_document,
  answer_movement,
}
use vrindavan.Trade.Services.{
  OrderService, PaymentService, get_from, remove_from, answer_payment, serve_orders, serve_payments,
}
use vrindavan.Purchase.Order
use vrindavan.Purchase.Invoice
use vrindavan.Purchase.Return
use vrindavan.Purchase.Payment
use vrindavan.Purchase.Grn

abbrev pub orders : DocumentRepository Order.PurchaseOrder Order.CreatePurchaseOrderProps
orders = record {
  find_all = Order.find_purchase_orders_with_lines;
  find_by_id = Order.find_purchase_order;
  create_with_lines = Order.create_purchase_order;
  approve = Order.approve_purchase_order;
  delete = Order.delete_purchase_order;
}

abbrev pub notes : DocumentRepository Grn.GoodsReceivedNote Grn.CreateGoodsReceivedNoteProps
notes = record {
  find_all = Grn.find_goods_received_notes_with_lines;
  find_by_id = Grn.find_grn;
  create_with_lines = Grn.create_grn;
  approve = (λ clock by. Grn.complete_grn clock);
  delete = Grn.delete_grn;
}

abbrev pub invoices : DocumentRepository Invoice.PurchaseInvoice Invoice.CreatePurchaseInvoiceProps
invoices = record {
  find_all = Invoice.find_purchase_invoices_with_lines;
  find_by_id = Invoice.find_purchase_invoice;
  create_with_lines = Invoice.create_purchase_invoice;
  approve = Invoice.approve_purchase_invoice;
  delete = Invoice.delete_purchase_invoice;
}

abbrev pub returns : DocumentRepository Return.PurchaseReturn Return.CreatePurchaseReturnProps
returns = record {
  find_all = Return.find_purchase_returns_with_lines;
  find_by_id = Return.find_purchase_return;
  create_with_lines = Return.create_purchase_return;
  approve = Return.approve_purchase_return;
  delete = Return.delete_purchase_return;
}

unfoldable pub purchase_orders_service :
    OrderService Order.PurchaseOrder Order.CreatePurchaseOrderProps
unfolding serve_orders
purchase_orders_service = serve_orders orders Order.cancel_purchase_order

-- `complete` stands for the approval, and takes no user.
unfoldable pub goods_received_notes_service :
    DocumentService Grn.GoodsReceivedNote Grn.CreateGoodsReceivedNoteProps
unfolding serve answer_document
goods_received_notes_service = serve notes answer_document

unfoldable pub purchase_invoices_service :
    DocumentService Invoice.PurchaseInvoice Invoice.CreatePurchaseInvoiceProps
unfolding serve answer_document
purchase_invoices_service = serve invoices answer_document

unfoldable pub purchase_returns_service :
    DocumentService Return.PurchaseReturn Return.CreatePurchaseReturnProps
unfolding serve answer_movement
purchase_returns_service = serve returns answer_movement

unfoldable pub supplier_payments_service :
    PaymentService Payment.SupplierPayment Payment.CreateSupplierPaymentProps
unfolding answer_payment
supplier_payments_service =
    serve_payments Payment.find_supplier_payments_with_allocations Payment.find_supplier_payment
      Payment.create_supplier_payment
