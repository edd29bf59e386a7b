-- ===== src/Examples/Purchase.antt =====
-- The purchase side of the example company.
use vrindavan.Base.{ℕ, ◌≡◌, refl, true, none, some, List, [], ◌∷◌, map, arith}
use vrindavan.Exec.{ok}
use vrindavan.Db.{
  Db, Clock, PurchaseOrderRow, PurchaseOrderLineRow, PurchaseOrderStatus, GoodsReceivedNoteRow,
  GrnLineRow, GoodsReceivedNoteStatus, SupplierRow, PurchaseInvoiceRow, InvoiceStatus, PaymentMode,
  document_not_draft,
}
use vrindavan.Numbering.{next_document_number, type_code, alphanumeric, lpad_five}
use vrindavan.Stock.Dims.{same_dims}
use vrindavan.Stock.Trigger.{round_div}
use vrindavan.Trade.Fulfilment.{base_quantity}
use vrindavan.Stock.Posting.{post_stock_movement}
use vrindavan.Inventory.Document.{to_domain}
use vrindavan.Trade.Payment.Laws.{IsSettled}
use vrindavan.Purchase.Grn
use vrindavan.Purchase.Payment
use vrindavan.Purchase.Billing
use vrindavan.Purchase.Billing.{create_payment, run_purchases, run_purchases-IsSettled}
use vrindavan.Purchase.Outstanding.{
  outstanding_payables, find_outstanding_payables-lists, OutstandingPayableRow,
  find_outstanding_payables,
}
use vrindavan.Trade.Outstanding.Statement.{IsStatement}
use vrindavan.Inventory.Services.{conflict, message_of}
use vrindavan.Inventory.Services.Answers.{is_answer}
use vrindavan.Purchase.Services.{goods_received_notes_service}
use vrindavan.Purchase.Services.Failures.{goods_received_notes_service-fails}
use vrindavan.Stock.Consistent.{IsConsistent}
use vrindavan.Inventory.Document.Returns.{is_ok}
use vrindavan.Examples.{noon, shop, no_purchase}

abbrev pub order : PurchaseOrderRow
order = record {
  id = 60;
  po_number = [];
  po_date = 100;
  supplier_id = 4;
  warehouse_id = 1;
  financial_year_id = 5;
  expected_delivery_date = none;
  status = PurchaseOrderStatus.approved;
  remarks = none;
  total_amount = 800;
  created_by = none;
  approved_by = none;
  approved_at = none;
  created_at = 1100;
  updated_at = 1100;
}

abbrev pub order_line : PurchaseOrderLineRow
order_line = record {
  id = 61;
  po_id = 60;
  product_id = 1;
  product_unit_id = 3;
  quantity = 20;
  received_quantity = 0;
  rate = 40;
  discount_percent = 0;
  gst_id = none;
  line_total = 800;
}

abbrev pub note : GoodsReceivedNoteRow
note = record {
  id = 62;
  grn_number = [];
  grn_date = 100;
  po_id = some 60;
  supplier_id = 4;
  warehouse_id = 1;
  transporter_id = none;
  status = GoodsReceivedNoteStatus.draft;
  remarks = none;
  created_by = none;
  created_at = 1100;
  updated_at = 1100;
}

abbrev pub note_line : GrnLineRow
note_line = record {
  id = 63;
  grn_id = 62;
  po_line_id = some 61;
  product_id = 1;
  product_unit_id = 3;
  batch_id = none;
  quantity = 15;
  rate = 40;
  remarks = none;
}

abbrev pub invoice : PurchaseInvoiceRow
invoice = record {
  id = 80;
  invoice_number = [];
  invoice_date = 100;
  supplier_invoice_number = none;
  grn_id = none;
  po_id = none;
  supplier_id = 4;
  financial_year_id = 5;
  due_date = none;
  status = InvoiceStatus.approved;
  subtotal = 800;
  tax_amount = 0;
  discount_amount = 0;
  total_amount = 800;
  paid_amount = 0;
  created_by = none;
  approved_by = none;
  approved_at = none;
  created_at = 1100;
  updated_at = 1100;
}

abbrev pub supplier : SupplierRow
supplier = record { id = 4; name = "Mira" }

-- The company with an open order, a draft note for 15 of its 20 units of 2, and an unpaid invoice.
abbrev pub market : Db
market = record shop {
  product_units = record { id = 3; conversion_factor = 2000000 } ∷ [];
  purchase = record no_purchase {
    suppliers = supplier ∷ [];
    purchase_orders = order ∷ [];
    purchase_order_lines = order_line ∷ [];
    goods_received_notes = note ∷ [];
    grn_lines = note_line ∷ [];
    purchase_invoices = invoice ∷ [];
  };
}

abbrev fulfilled : Db
fulfilled = (Grn.complete_grn noon 62 market).1

done :
    Grn.complete_grn noon 62 market
    ≡ (ok (to_domain Grn.document (Grn.stamp_completed noon note) (note_line ∷ [])), fulfilled)
unfolding Grn.complete_grn post_stock_movement same_dims
done = refl

complete_grn-Fulfilled_example :
    Grn.Received.Received noon
      (to_domain Grn.document (Grn.stamp_completed noon note) (note_line ∷ []))
      market
      fulfilled
complete_grn-Fulfilled_example = Grn.Received.complete_grn-Fulfilled noon 62 market fulfilled _ done

market-IsConsistent : IsConsistent market
market-IsConsistent = record {
  derivable = λ d. ground arith;
  unique = (refl, tt);
  covered = (omega arith, tt);
}

complete_grn-returns_example : is_ok (Grn.complete_grn noon 62 market).0 ≡ true
complete_grn-returns_example =
    Grn.Returns.complete_grn-returns noon 62 market note market-IsConsistent refl refl
      ((record { id = 3; conversion_factor = 2000000 }, refl), tt)
      (unfold base_quantity in unfold round_div in omega arith, tt)

-- The note is for less than the order.
order_follows :
    map (λ o. o.status) fulfilled.purchase.purchase_orders
    ≡ PurchaseOrderStatus.partially_received ∷ []
unfolding Grn.complete_grn post_stock_movement same_dims
order_follows = refl

abbrev pub paying : ℕ → Payment.CreateSupplierPaymentProps
paying amount = record {
  supplier_id = 4;
  amount = amount;
  payment_mode = PaymentMode.cash;
  payment_date = none;
  reference_number = none;
  remarks = none;
  allocations = record { invoice_id = 80; allocated_amount = amount } ∷ [];
}

-- The second payment is for more than is left.
abbrev bills : List (Clock × Billing.Call)
bills =
    (noon, create_payment (paying 300) none)
    ∷ (noon, create_payment (paying 600) none)
    ∷ (noon, create_payment (paying 500) none)
    ∷ []

pub market-IsSettled : IsSettled Payment.billing market
market-IsSettled = record {
  numbered = (omega arith, tt);
  unique = (tt, tt);
  settled = ((refl, omega arith), tt);
  referenced = tt;
}

-- It is paid in full by the other two.
invoice_paid :
    map {B = InvoiceStatus × ℕ}
      (λ i. (i.status, i.paid_amount))
      (run_purchases bills market).purchase.purchase_invoices
    ≡ (InvoiceStatus.paid, 800) ∷ []
unfolding run_purchases Payment.create_supplier_payment next_document_number type_code alphanumeric
    lpad_five
invoice_paid = refl

find_outstanding_payables-lists_example :
    (rows : List OutstandingPayableRow) × find_outstanding_payables noon
        (record { supplier_id = some 4 })
        market
      ≡ (ok rows, market)
    × IsStatement outstanding_payables 4 market.purchase.purchase_invoices
        market.purchase.supplier_payment_allocations rows
find_outstanding_payables-lists_example =
    find_outstanding_payables-lists 4 noon market supplier market-IsSettled refl

-- Nothing is left on the paid invoice.
statement_after :
    (find_outstanding_payables noon
      (record { supplier_id = some 4 })
      (run_purchases bills market)).0
    ≡ ok []
unfolding find_outstanding_payables run_purchases Payment.create_supplier_payment
    next_document_number type_code alphanumeric lpad_five
statement_after = refl

goods_received_notes_service-fails_example :
    (is_answer (conflict (message_of (document_not_draft 62))) ≡ true) × (fulfilled ≡ fulfilled)
goods_received_notes_service-fails_example =
    goods_received_notes_service-fails noon none 62 fulfilled fulfilled
      (conflict (message_of (document_not_draft 62)))
      (unfold goods_received_notes_service in
        unfold Grn.complete_grn in unfold post_stock_movement in unfold same_dims in refl)
