-- ===== src/Sales/Services.antt =====
-- The services of sales (backend/src/modules/sales/application/*.service.ts): which HTTP exception
-- answers for which outcome of a repository.
pub mod Failures
use vrindavan.Base.{ℕ, Option, List}
use vrindavan.Db.{Clock}
use vrindavan.Inventory.Services.{
  HttpException, Service, DocumentRepository, DocumentService, catch_with, serve, answer_document,
  answer_movement,
}
use vrindavan.Trade.Services.{
  OrderService, PaymentService, get_from, remove_from, answer_payment, serve_orders, serve_payments,
}
use vrindavan.Sales.Order
use vrindavan.Sales.Invoice
use vrindavan.Sales.Return
use vrindavan.Sales.Payment
use vrindavan.Sales.Challan
use vrindavan.Sales.Quotation

abbrev pub orders : DocumentRepository Order.SalesOrder Order.CreateSalesOrderProps
orders = record {
  find_all = Order.find_sales_orders_with_lines;
  find_by_id = Order.find_sales_order;
  create_with_lines = Order.create_sales_order;
  approve = Order.approve_sales_order;
  delete = Order.delete_sales_order;
}

abbrev pub challans : DocumentRepository Challan.DeliveryChallan Challan.CreateDeliveryChallanProps
challans = record {
  find_all = Challan.find_delivery_challans_with_lines;
  find_by_id = Challan.find_delivery_challan;
  create_with_lines = Challan.create_delivery_challan;
  approve = (λ clock by. Challan.deliver clock);
  delete = Challan.delete_delivery_challan;
}

abbrev pub invoices : DocumentRepository Invoice.SalesInvoice Invoice.CreateSalesInvoiceProps
invoices = record {
  find_all = Invoice.find_sales_invoices_with_lines;
  find_by_id = Invoice.find_sales_invoice;
  create_with_lines = Invoice.create_sales_invoice;
  approve = Invoice.approve_sales_invoice;
  delete = Invoice.delete_sales_invoice;
}

abbrev pub returns : DocumentRepository Return.SalesReturn Return.CreateSalesReturnProps
returns = record {
  find_all = Return.find_sales_returns_with_lines;
  find_by_id = Return.find_sales_return;
  create_with_lines = Return.create_sales_return;
  approve = Return.approve_sales_return;
  delete = Return.delete_sales_return;
}

unfoldable pub sales_orders_service : OrderService Order.SalesOrder Order.CreateSalesOrderProps
unfolding serve_orders
sales_orders_service = serve_orders orders Order.cancel_sales_order

-- `deliver` stands for the approval, and takes no user.
unfoldable pub delivery_challans_service :
    DocumentService Challan.DeliveryChallan Challan.CreateDeliveryChallanProps
unfolding serve answer_movement
delivery_challans_service = serve challans answer_movement

unfoldable pub sales_invoices_service :
    DocumentService Invoice.SalesInvoice Invoice.CreateSalesInvoiceProps
unfolding serve answer_document
sales_invoices_service = serve invoices answer_document

unfoldable pub sales_returns_service :
    DocumentService Return.SalesReturn Return.CreateSalesReturnProps
unfolding serve answer_document
sales_returns_service = serve returns answer_document

unfoldable pub customer_payments_service :
    PaymentService Payment.CustomerPayment Payment.CreateCustomerPaymentProps
unfolding answer_payment
customer_payments_service =
    serve_payments Payment.find_customer_payments_with_allocations Payment.find_customer_payment
      Payment.create_customer_payment

pub record QuotationsService : Type 0 where
  pub list_all : Service (List Quotation.Quotation)
  pub get : ℕ → Service Quotation.Quotation
  pub create_one : Clock → Quotation.CreateQuotationProps → Option ℕ → Service Quotation.Quotation
  pub send_one : Clock → ℕ → Service Quotation.Quotation
  pub accept_one : Clock → ℕ → Service Quotation.Quotation
  pub reject_one : Clock → ℕ → Service Quotation.Quotation
  pub convert_one : Clock → ℕ → Option ℕ → ℕ → Service Order.SalesOrder
  pub remove_one : ℕ → Service (Unit {0})

unfoldable pub quotations_service : QuotationsService
unfolding answer_document
quotations_service = record {
  list_all = catch_with HttpException.unhandled Quotation.find_quotations_with_lines;
  get = get_from Quotation.find_quotation;
  create_one = λ clock props by.
      catch_with HttpException.unhandled (Quotation.create_quotation clock props by);
  send_one = λ clock id. catch_with answer_document (Quotation.send clock id);
  accept_one = λ clock id. catch_with answer_document (Quotation.accept clock id);
  reject_one = λ clock id. catch_with answer_document (Quotation.reject clock id);
  convert_one = λ clock warehouse by id.
      catch_with answer_document (Quotation.convert_to_sales_order clock warehouse by id);
  remove_one = remove_from Quotation.delete_quotation;
}
