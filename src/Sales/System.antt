-- ===== src/Sales/System.antt =====
-- The sales module and the stock: every call that its services make of its repositories, in any
-- order (backend/src/modules/sales/application/*.service.ts).
pub mod Stock
pub mod Spares
use vrindavan.Base.{ℕ, Option, List, [], ◌∷◌}
use vrindavan.Db.{Db, Clock}
use vrindavan.Stock.Consistent.{IsConsistent}
use vrindavan.Sales.Order
use vrindavan.Sales.Quotation
use vrindavan.Sales.Challan
use vrindavan.Sales.Invoice
use vrindavan.Sales.Payment
use vrindavan.Sales.Return

pub data Call : Type 0 where
  create_order : Order.CreateSalesOrderProps → Option ℕ → Call
  approve_order : Option ℕ → ℕ → Call
  cancel_order : ℕ → Call
  delete_order : ℕ → Call
  create_quotation : Quotation.CreateQuotationProps → Option ℕ → Call
  send_quotation : ℕ → Call
  accept_quotation : ℕ → Call
  reject_quotation : ℕ → Call
  convert_quotation : ℕ → Option ℕ → ℕ → Call
  delete_quotation : ℕ → Call
  create_challan : Challan.CreateDeliveryChallanProps → Option ℕ → Call
  deliver_challan : ℕ → Call
  delete_challan : ℕ → Call
  create_invoice : Invoice.CreateSalesInvoiceProps → Option ℕ → Call
  approve_invoice : Option ℕ → ℕ → Call
  delete_invoice : ℕ → Call
  create_payment : Payment.CreateCustomerPaymentProps → Option ℕ → Call
  create_return : Return.CreateSalesReturnProps → Option ℕ → Call
  approve_return : Option ℕ → ℕ → Call
  delete_return : ℕ → Call

-- The database after a call, whether it returned or threw.
unfoldable pub step : Clock → Call → Db → Db
step clock (create_order props by) s = (Order.create_sales_order clock props by s).1
step clock (approve_order by id) s = (Order.approve_sales_order clock by id s).1
step clock (cancel_order id) s = (Order.cancel_sales_order clock id s).1
step clock (delete_order id) s = (Order.delete_sales_order id s).1
step clock (create_quotation props by) s = (Quotation.create_quotation clock props by s).1
step clock (send_quotation id) s = (Quotation.send clock id s).1
step clock (accept_quotation id) s = (Quotation.accept clock id s).1
step clock (reject_quotation id) s = (Quotation.reject clock id s).1
step clock (convert_quotation warehouse by id) s =
    (Quotation.convert_to_sales_order clock warehouse by id s).1
step clock (delete_quotation id) s = (Quotation.delete_quotation id s).1
step clock (create_challan props by) s = (Challan.create_delivery_challan clock props by s).1
step clock (deliver_challan id) s = (Challan.deliver clock id s).1
step clock (delete_challan id) s = (Challan.delete_delivery_challan id s).1
step clock (create_invoice props by) s = (Invoice.create_sales_invoice clock props by s).1
step clock (approve_invoice by id) s = (Invoice.approve_sales_invoice clock by id s).1
step clock (delete_invoice id) s = (Invoice.delete_sales_invoice id s).1
step clock (create_payment props by) s = (Payment.create_customer_payment clock props by s).1
step clock (create_return props by) s = (Return.create_sales_return clock props by s).1
step clock (approve_return by id) s = (Return.approve_sales_return clock by id s).1
step clock (delete_return id) s = (Return.delete_sales_return id s).1
