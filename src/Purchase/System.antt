-- ===== src/Purchase/System.antt =====
-- The purchase module and the stock: every call that its services make of its repositories, in any
-- order (backend/src/modules/purchase/application/*.service.ts).
pub mod Stock
pub mod Spares
use vrindavan.Base.{ℕ, Option, List, [], ◌∷◌}
use vrindavan.Db.{Db, Clock}
use vrindavan.Stock.Consistent.{IsConsistent}
use vrindavan.Purchase.Order
use vrindavan.Purchase.Grn
use vrindavan.Purchase.Invoice
use vrindavan.Purchase.Payment
use vrindavan.Purchase.Return

pub data Call : Type 0 where
  create_order : Order.CreatePurchaseOrderProps → Option ℕ → Call
  approve_order : Option ℕ → ℕ → Call
  cancel_order : ℕ → Call
  delete_order : ℕ → Call
  create_grn : Grn.CreateGoodsReceivedNoteProps → Option ℕ → Call
  complete_grn : ℕ → Call
  delete_grn : ℕ → Call
  create_invoice : Invoice.CreatePurchaseInvoiceProps → Option ℕ → Call
  approve_invoice : Option ℕ → ℕ → Call
  delete_invoice : ℕ → Call
  create_payment : Payment.CreateSupplierPaymentProps → Option ℕ → Call
  create_return : Return.CreatePurchaseReturnProps → Option ℕ → Call
  approve_return : Option ℕ → ℕ → Call
  delete_return : ℕ → Call

-- The database after a call, whether it returned or threw.
unfoldable pub step : Clock → Call → Db → Db
step clock (create_order props by) s = (Order.create_purchase_order clock props by s).1
step clock (approve_order by id) s = (Order.approve_purchase_order clock by id s).1
step clock (cancel_order id) s = (Order.cancel_purchase_order clock id s).1
step clock (delete_order id) s = (Order.delete_purchase_order id s).1
step clock (create_grn props by) s = (Grn.create_grn clock props by s).1
step clock (complete_grn id) s = (Grn.complete_grn clock id s).1
step clock (delete_grn id) s = (Grn.delete_grn id s).1
step clock (create_invoice props by) s = (Invoice.create_purchase_invoice clock props by s).1
step clock (approve_invoice by id) s = (Invoice.approve_purchase_invoice clock by id s).1
step clock (delete_invoice id) s = (Invoice.delete_purchase_invoice id s).1
step clock (create_payment props by) s = (Payment.create_supplier_payment clock props by s).1
step clock (create_return props by) s = (Return.create_purchase_return clock props by s).1
step clock (approve_return by id) s = (Return.approve_purchase_return clock by id s).1
step clock (delete_return id) s = (Return.delete_purchase_return id s).1
