-- ===== src/Examples/Sales.antt =====
-- The sales side of the example company.
use vrindavan.Base.{◌≡◌, refl, true, none, some, List, [], ◌∷◌, map, arith}
use vrindavan.Exec.{ok, err}
use vrindavan.Db.{
  Db, Clock, SalesOrderRow, SalesOrderLineRow, SalesOrderStatus, DeliveryChallanRow,
  DeliveryChallanLineRow, DeliveryChallanStatus, CustomerRow, SalesInvoiceRow, InvoiceStatus,
  QuotationRow, QuotationLineRow, QuotationStatus, document_not_draft, insufficient_stock,
}
use vrindavan.Numbering.{number_text, year_text}
use vrindavan.Stock.Dims.{same_dims}
use vrindavan.Stock.Trigger.{round_div}
use vrindavan.Trade.Fulfilment.{base_quantity}
use vrindavan.Stock.Posting.{post_stock_movement}
use vrindavan.Inventory.Document.{to_domain}
use vrindavan.Sales.Order
use vrindavan.Sales.Challan
use vrindavan.Sales.Quotation
use vrindavan.Sales.Quotation.Life.{Reaches, Numbered, status_at}
use vrindavan.Sales.Quotation.History.{convert, delete, run_quotations, run_quotations-Reaches}
use vrindavan.Sales.Quotation.Once.{convert_twice}
use vrindavan.Inventory.Services.{conflict, message_of}
use vrindavan.Inventory.Services.Answers.{is_answer}
use vrindavan.Sales.Services.{delivery_challans_service}
use vrindavan.Sales.Services.Failures.{delivery_challans_service-fails}
use vrindavan.Stock.Consistent.{IsConsistent}
use vrindavan.Inventory.Document.{lines_for}
use vrindavan.Inventory.Document.Returns.{is_ok}
use vrindavan.Examples.{noon, this_year, shop, no_sales}

abbrev pub order : SalesOrderRow
order = record {
  id = 60;
  so_number = [];
  so_date = 100;
  customer_id = 4;
  quotation_id = none;
  warehouse_id = 1;
  financial_year_id = 5;
  expected_delivery_date = none;
  status = SalesOrderStatus.approved;
  remarks = none;
  total_amount = 800;
  created_by = none;
  approved_by = none;
  approved_at = none;
  created_at = 1100;
  updated_at = 1100;
}

abbrev pub order_line : SalesOrderLineRow
order_line = record {
  id = 61;
  so_id = 60;
  product_id = 1;
  product_unit_id = 3;
  quantity = 20;
  delivered_quantity = 0;
  rate = 40;
  discount_percent = 0;
  gst_id = none;
  line_total = 800;
}

abbrev pub note : DeliveryChallanRow
note = record {
  id = 62;
  dc_number = [];
  dc_date = 100;
  so_id = some 60;
  customer_id = 4;
  warehouse_id = 1;
  transporter_id = none;
  status = DeliveryChallanStatus.draft;
  remarks = none;
  created_by = none;
  created_at = 1100;
  updated_at = 1100;
}

abbrev pub note_line : DeliveryChallanLineRow
note_line = record {
  id = 63;
  dc_id = 62;
  so_line_id = some 61;
  product_id = 1;
  product_unit_id = 3;
  batch_id = none;
  quantity = 15;
  remarks = none;
}

abbrev pub invoice : SalesInvoiceRow
invoice = record {
  id = 80;
  invoice_number = [];
  invoice_date = 100;
  dc_id = none;
  so_id = none;
  customer_id = 4;
  financial_year_id = 5;
  due_date = none;
  status = InvoiceStatus.approved;
  subtotal = 800;
  tax_amount = 0;
  discount_amount = 0;
  total_amount = 800;
  paid_amount = 0;
  created_by = none;
  approved_by = none;
  approved_at = none;
  created_at = 1100;
  updated_at = 1100;
}

abbrev pub quotation : QuotationRow
quotation = record {
  id = 70;
  quotation_number = [];
  quotation_date = 100;
  customer_id = 4;
  valid_until = none;
  status = QuotationStatus.accepted;
  remarks = none;
  total_amount = 800;
  created_by = none;
  created_at = 1100;
  updated_at = 1100;
}

abbrev pub quotation_line : QuotationLineRow
quotation_line = record {
  id = 71;
  quotation_id = 70;
  product_id = 1;
  product_unit_id = 3;
  quantity = 20;
  rate = 40;
  discount_percent = 0;
  gst_id = none;
  line_total = 800;
}

abbrev pub customer : CustomerRow
customer = record { id = 4; name = "Mira" }

-- The company with an open order, a draft note for 15 of its 20 units of 2, and an unpaid invoice.
abbrev pub market : Db
market = record shop {
  product_units = record { id = 3; conversion_factor = 2000000 } ∷ [];
  sales = record no_sales {
    customers = customer ∷ [];
    sales_orders = order ∷ [];
    sales_order_lines = order_line ∷ [];
    delivery_challans = note ∷ [];
    delivery_challan_lines = note_line ∷ [];
    quotations = quotation ∷ [];
    quotation_lines = quotation_line ∷ [];
    sales_invoices = invoice ∷ [];
  };
}

abbrev fulfilled : Db
fulfilled = (Challan.deliver noon 62 market).1

done : Challan.deliver noon 62 market ≡ (
  ok (to_domain Challan.document (Challan.stamp_delivered noon note) (note_line ∷ [])),
  fulfilled,
)
unfolding Challan.deliver post_stock_movement same_dims
done = refl

deliver-Fulfilled_example :
    Challan.Delivered.Delivered noon
      (to_domain Challan.document (Challan.stamp_delivered noon note) (note_line ∷ []))
      market
      fulfilled
deliver-Fulfilled_example = Challan.Delivered.deliver-Fulfilled noon 62 market fulfilled _ done

market-IsConsistent : IsConsistent market
market-IsConsistent = record {
  derivable = λ d. ground arith;
  unique = (refl, tt);
  covered = (omega arith, tt);
}

challan_covered :
    Challan.Returns.CoversLines note (lines_for Challan.document 62 market) market market
unfolding same_dims
challan_covered d = ground arith

deliver-returns_example : is_ok (Challan.deliver noon 62 market).0 ≡ true
deliver-returns_example =
    Challan.Returns.deliver-returns noon 62 market note market-IsConsistent refl refl
      ((record { id = 3; conversion_factor = 2000000 }, refl), tt)
      (unfold base_quantity in unfold round_div in omega arith, tt) challan_covered

-- The note is for less than the order.
order_follows :
    map (λ o. o.status) fulfilled.sales.sales_orders ≡ SalesOrderStatus.partially_delivered ∷ []
unfolding Challan.deliver post_stock_movement same_dims
order_follows = refl

abbrev converting : List (Clock × Quotation.History.Call)
converting = (noon, convert 1 none 70) ∷ (noon, convert 2 none 70) ∷ (noon, delete 70) ∷ []

market-Numbered : Numbered market
market-Numbered = record { below = (omega arith, tt); unique = (tt, tt) }

run_quotations-Reaches_example :
    Reaches (some QuotationStatus.accepted) (status_at 70 (run_quotations converting market))
run_quotations-Reaches_example =
    run_quotations-Reaches converting market 70 market-Numbered (omega arith)

abbrev ordered : SalesOrderRow
ordered =
    Quotation.order_header noon 1 none quotation 5 (number_text "SO" (year_text (some this_year)) 1)
      1000

abbrev converted_order : Order.SalesOrder
converted_order =
    to_domain Order.document ordered (Quotation.order_line ordered quotation_line 1001 ∷ [])

abbrev converted_left : Db
converted_left = (Quotation.convert_to_sales_order noon 1 none 70 market).1

converted_once :
    Quotation.convert_to_sales_order noon 1 none 70 market ≡ (ok converted_order, converted_left)
unfolding Quotation.convert_to_sales_order
converted_once = refl

convert_twice_example :
    Quotation.convert_to_sales_order noon 2 none 70 (run_quotations converting converted_left)
    ≡ (err (document_not_draft 70), run_quotations converting converted_left)
convert_twice_example =
    convert_twice noon noon 1 2 none none 70 market converted_left converted_order converting
      market-Numbered (omega arith) converted_once

abbrev bare : Db
bare = record market { stock_balances = [] }

delivery_challans_service-fails_example :
    (is_answer (conflict (message_of (insufficient_stock "Tea" 0 30000000))) ≡ true) × (bare ≡ bare)
delivery_challans_service-fails_example =
    delivery_challans_service-fails noon none 62 bare bare
      (conflict (message_of (insufficient_stock "Tea" 0 30000000)))
      (unfold delivery_challans_service in
        unfold Challan.deliver in unfold post_stock_movement in unfold same_dims in refl)
