-- ===== src/Tables/Sales.antt =====
-- The tables of backend/src/modules/sales.
use vrindavan.Db.{
  QuotationRow, QuotationLineRow, SalesOrderRow, SalesOrderLineRow, DeliveryChallanRow,
  DeliveryChallanLineRow, SalesInvoiceRow, SalesInvoiceLineRow, CustomerPaymentRow,
  CustomerPaymentAllocationRow, SalesReturnRow, SalesReturnLineRow,
}
use vrindavan.Tables.{Table}

abbrev pub quotations : Table QuotationRow
quotations = record {
  id_of = λ r. r.id;
  rows = λ db. db.sales.quotations;
  put = λ rows db. record db { sales = record db.sales { quotations = rows } };
}

abbrev pub quotation_lines : Table QuotationLineRow
quotation_lines = record {
  id_of = λ r. r.id;
  rows = λ db. db.sales.quotation_lines;
  put = λ rows db. record db { sales = record db.sales { quotation_lines = rows } };
}

abbrev pub sales_orders : Table SalesOrderRow
sales_orders = record {
  id_of = λ r. r.id;
  rows = λ db. db.sales.sales_orders;
  put = λ rows db. record db { sales = record db.sales { sales_orders = rows } };
}

abbrev pub sales_order_lines : Table SalesOrderLineRow
sales_order_lines = record {
  id_of = λ r. r.id;
  rows = λ db. db.sales.sales_order_lines;
  put = λ rows db. record db { sales = record db.sales { sales_order_lines = rows } };
}

abbrev pub delivery_challans : Table DeliveryChallanRow
delivery_challans = record {
  id_of = λ r. r.id;
  rows = λ db. db.sales.delivery_challans;
  put = λ rows db. record db { sales = record db.sales { delivery_challans = rows } };
}

abbrev pub delivery_challan_lines : Table DeliveryChallanLineRow
delivery_challan_lines = record {
  id_of = λ r. r.id;
  rows = λ db. db.sales.delivery_challan_lines;
  put = λ rows db. record db { sales = record db.sales { delivery_challan_lines = rows } };
}

abbrev pub sales_invoices : Table SalesInvoiceRow
sales_invoices = record {
  id_of = λ r. r.id;
  rows = λ db. db.sales.sales_invoices;
  put = λ rows db. record db { sales = record db.sales { sales_invoices = rows } };
}

abbrev pub sales_invoice_lines : Table SalesInvoiceLineRow
sales_invoice_lines = record {
  id_of = λ r. r.id;
  rows = λ db. db.sales.sales_invoice_lines;
  put = λ rows db. record db { sales = record db.sales { sales_invoice_lines = rows } };
}

abbrev pub customer_payments : Table CustomerPaymentRow
customer_payments = record {
  id_of = λ r. r.id;
  rows = λ db. db.sales.customer_payments;
  put = λ rows db. record db { sales = record db.sales { customer_payments = rows } };
}

abbrev pub customer_payment_allocations : Table CustomerPaymentAllocationRow
customer_payment_allocations = record {
  id_of = λ r. r.id;
  rows = λ db. db.sales.customer_payment_allocations;
  put = λ rows db. record db { sales = record db.sales { customer_payment_allocations = rows } };
}

abbrev pub sales_returns : Table SalesReturnRow
sales_returns = record {
  id_of = λ r. r.id;
  rows = λ db. db.sales.sales_returns;
  put = λ rows db. record db { sales = record db.sales { sales_returns = rows } };
}

abbrev pub sales_return_lines : Table SalesReturnLineRow
sales_return_lines = record {
  id_of = λ r. r.id;
  rows = λ db. db.sales.sales_return_lines;
  put = λ rows db. record db { sales = record db.sales { sales_return_lines = rows } };
}
