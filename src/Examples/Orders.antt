-- ===== src/Examples/Orders.antt =====
-- An order of the example company is made and found.
use vrindavan.Base.{◌≡◌, refl, none, some, [], ◌∷◌}
use vrindavan.Exec.{ok}
use vrindavan.Db.{Db, SalesOrderRow}
use vrindavan.Numbering.{next_document_number, number_text, year_text}
use vrindavan.Inventory.Document.{to_domain}
use vrindavan.Sales.Order
use vrindavan.Sales.Created.{create_sales_order-find}
use vrindavan.Examples.{noon, this_year}
use vrindavan.Examples.Sales.{market}

-- 2.5 at 19.99, less 5%.
abbrev wanted : Order.CreateSalesOrderLineProps
wanted = record {
  product_id = 1;
  product_unit_id = 3;
  quantity = 2500;
  rate = 1999;
  discount_percent = some 500;
  gst_id = none;
  precomputed_line_total = none;
}

abbrev agreed : Order.CreateSalesOrderLineProps
agreed = record wanted { discount_percent = none; precomputed_line_total = some 4500 }

abbrev ordering : Order.CreateSalesOrderProps
ordering = record {
  customer_id = 4;
  warehouse_id = 1;
  quotation_id = none;
  so_date = none;
  expected_delivery_date = none;
  remarks = none;
  lines = wanted ∷ agreed ∷ [];
}

abbrev ordered : Db
ordered = (Order.create_sales_order noon ordering none market).1

abbrev header : SalesOrderRow
header =
    Order.header_values noon ordering none 5
      (Order.price_line wanted market ∷ Order.price_line agreed market ∷ [])
      (number_text "SO" (year_text (some this_year)) 1) 1000

abbrev made : Order.SalesOrder
made = to_domain Order.document header (
    Order.line_values header wanted (Order.price_line wanted market) 1001
    ∷ Order.line_values header agreed (Order.price_line agreed market) 1002
    ∷ [])

created : Order.create_sales_order noon ordering none market ≡ (ok made, ordered)
unfolding Order.create_sales_order next_document_number
created = refl

create_sales_order-find_example :
    Order.find_sales_order made.header.id ordered ≡ (ok (some made), ordered)
create_sales_order-find_example =
    create_sales_order-find noon ordering none market ordered made
      (record { headers = refl; lines = refl }) created

-- 47.47625 and 45.00 make 92.48.
ordered_total : made.header.total_amount ≡ 9248
unfolding Order.header_values Order.price_line
ordered_total = refl
