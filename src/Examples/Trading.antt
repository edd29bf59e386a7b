-- ===== src/Examples/Trading.antt =====
-- The example company trading: stock moved by all three modules, and prices.
use vrindavan.Base.{ℕ, ◌≡◌, refl, none, List, [], ◌∷◌, map}
use vrindavan.Db.{Db, Clock}
use vrindavan.Stock.Consistent.{IsConsistent}
use vrindavan.Inventory.System.{post_opening_stock}
use vrindavan.Sales.System.{deliver_challan}
use vrindavan.Sales.System.{create_payment as receive_payment}
use vrindavan.Purchase.System.{complete_grn}
use vrindavan.Purchase.System.{create_payment as make_payment}
use vrindavan.Tenant.{Call, inventory, sales, purchase, run_calls, run_calls-IsConsistent}
use vrindavan.Inventory.OpeningStock
use vrindavan.Sales.Challan
use vrindavan.Purchase.Grn
use vrindavan.Stock.Dims.{same_dims}
use vrindavan.Stock.Posting.{post_stock_movement}
use vrindavan.Examples.{noon, opened}
use vrindavan.Examples.Sales
use vrindavan.Examples.Purchase
use vrindavan.Examples.Payments
use vrindavan.Trade.Payment.Laws.{IsSettled}
use vrindavan.Tenant.Settled.{run_calls-IsSettled}
use vrindavan.Db.{InvoiceStatus}
use vrindavan.Base.{arith}
use vrindavan.Numbering.{next_document_number, type_code, alphanumeric, lpad_five}
use vrindavan.Sales.Payment as CustomerPayment
use vrindavan.Purchase.Payment as SupplierPayment

abbrev trading : Db
trading = record opened {
  product_units = record { id = 3; conversion_factor = 2000000 } ∷ [];
  gst_rates = record { id = 7; total_rate = 1800 } ∷ [];
  sales = Sales.market.sales;
  purchase = Purchase.market.purchase;
}

abbrev calls : List (Clock × Call)
calls =
    (noon, inventory (post_opening_stock 1 1 100 400 none))
    ∷ (noon, sales (deliver_challan 62))
    ∷ (noon, purchase (complete_grn 62))
    ∷ []

trading-IsConsistent : IsConsistent trading
trading-IsConsistent = record { derivable = λ d. refl; unique = tt; covered = tt }

run_calls-IsConsistent_example : IsConsistent (run_calls calls trading)
run_calls-IsConsistent_example = run_calls-IsConsistent calls trading trading-IsConsistent

-- The calls moved stock: 30 out and 30 in.
calls_move :
    map {B = ℕ × ℕ} (λ e. (e.qty_in, e.qty_out)) (run_calls calls trading).stock_ledger
    ≡ (100, 0) ∷ (0, 30) ∷ (30, 0) ∷ []
unfolding run_calls Challan.deliver Grn.complete_grn OpeningStock.post_opening_stock
    post_stock_movement same_dims
calls_move = refl

-- The customer pays in two parts and the supplier is paid in one, while stock moves.
abbrev paid_calls : List (Clock × Call)
paid_calls =
    (noon, sales (receive_payment (Payments.paying 300) none))
    ∷ (noon, purchase (make_payment (Purchase.paying 800) none))
    ∷ (noon, inventory (post_opening_stock 1 1 100 400 none))
    ∷ (noon, sales (deliver_challan 62))
    ∷ (noon, sales (receive_payment (Payments.paying 500) none))
    ∷ []

trading-IsSettled_sales : IsSettled CustomerPayment.billing trading
trading-IsSettled_sales = record {
  numbered = (omega arith, tt);
  unique = (tt, tt);
  settled = ((refl, omega arith), tt);
  referenced = tt;
}

trading-IsSettled_purchase : IsSettled SupplierPayment.billing trading
trading-IsSettled_purchase = record {
  numbered = (omega arith, tt);
  unique = (tt, tt);
  settled = ((refl, omega arith), tt);
  referenced = tt;
}

run_calls-IsSettled_example :
    IsSettled CustomerPayment.billing (run_calls paid_calls trading)
    × IsSettled SupplierPayment.billing (run_calls paid_calls trading)
run_calls-IsSettled_example =
    run_calls-IsSettled paid_calls trading trading-IsSettled_sales trading-IsSettled_purchase

-- Both invoices are paid in full.
calls_pay :
    (map {B = InvoiceStatus × ℕ}
        (λ i. (i.status, i.paid_amount))
        (run_calls paid_calls trading).sales.sales_invoices
      ≡ (InvoiceStatus.paid, 800) ∷ [])
    × (map {B = InvoiceStatus × ℕ}
          (λ i. (i.status, i.paid_amount))
          (run_calls paid_calls trading).purchase.purchase_invoices
        ≡ (InvoiceStatus.paid, 800) ∷ [])
unfolding run_calls Challan.deliver OpeningStock.post_opening_stock post_stock_movement same_dims
    CustomerPayment.create_customer_payment SupplierPayment.create_supplier_payment
    next_document_number type_code alphanumeric lpad_five
calls_pay = (refl, refl)
