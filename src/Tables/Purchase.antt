-- ===== src/Tables/Purchase.antt =====
-- The tables of backend/src/modules/purchase.
use vrindavan.Db.{
  PurchaseOrderRow, PurchaseOrderLineRow, GoodsReceivedNoteRow, GrnLineRow, PurchaseInvoiceRow,
  PurchaseInvoiceLineRow, SupplierPaymentRow, SupplierPaymentAllocationRow, PurchaseReturnRow,
  PurchaseReturnLineRow,
}
use vrindavan.Tables.{Table}

abbrev pub purchase_orders : Table PurchaseOrderRow
purchase_orders = record {
  id_of = λ r. r.id;
  rows = λ db. db.purchase.purchase_orders;
  put = λ rows db. record db { purchase = record db.purchase { purchase_orders = rows } };
}

abbrev pub purchase_order_lines : Table PurchaseOrderLineRow
purchase_order_lines = record {
  id_of = λ r. r.id;
  rows = λ db. db.purchase.purchase_order_lines;
  put = λ rows db. record db { purchase = record db.purchase { purchase_order_lines = rows } };
}

abbrev pub goods_received_notes : Table GoodsReceivedNoteRow
goods_received_notes = record {
  id_of = λ r. r.id;
  rows = λ db. db.purchase.goods_received_notes;
  put = λ rows db. record db { purchase = record db.purchase { goods_received_notes = rows } };
}

abbrev pub grn_lines : Table GrnLineRow
grn_lines = record {
  id_of = λ r. r.id;
  rows = λ db. db.purchase.grn_lines;
  put = λ rows db. record db { purchase = record db.purchase { grn_lines = rows } };
}

abbrev pub purchase_invoices : Table PurchaseInvoiceRow
purchase_invoices = record {
  id_of = λ r. r.id;
  rows = λ db. db.purchase.purchase_invoices;
  put = λ rows db. record db { purchase = record db.purchase { purchase_invoices = rows } };
}

abbrev pub purchase_invoice_lines : Table PurchaseInvoiceLineRow
purchase_invoice_lines = record {
  id_of = λ r. r.id;
  rows = λ db. db.purchase.purchase_invoice_lines;
  put = λ rows db. record db { purchase = record db.purchase { purchase_invoice_lines = rows } };
}

abbrev pub supplier_payments : Table SupplierPaymentRow
supplier_payments = record {
  id_of = λ r. r.id;
  rows = λ db. db.purchase.supplier_payments;
  put = λ rows db. record db { purchase = record db.purchase { supplier_payments = rows } };
}

abbrev pub supplier_payment_allocations : Table SupplierPaymentAllocationRow
supplier_payment_allocations = record {
  id_of = λ r. r.id;
  rows = λ db. db.purchase.supplier_payment_allocations;
  put = λ rows db. record db {
    purchase = record db.purchase { supplier_payment_allocations = rows };
  };
}

abbrev pub purchase_returns : Table PurchaseReturnRow
purchase_returns = record {
  id_of = λ r. r.id;
  rows = λ db. db.purchase.purchase_returns;
  put = λ rows db. record db { purchase = record db.purchase { purchase_returns = rows } };
}

abbrev pub purchase_return_lines : Table PurchaseReturnLineRow
purchase_return_lines = record {
  id_of = λ r. r.id;
  rows = λ db. db.purchase.purchase_return_lines;
  put = λ rows db. record db { purchase = record db.purchase { purchase_return_lines = rows } };
}
