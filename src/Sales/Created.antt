-- ===== src/Sales/Created.antt =====
-- A quotation, a sales order and a sales invoice that were made are found (`createWithLines` and
-- `findById` of {quotation,sales-order,sales-invoice}.kysely-repository.ts).
use vrindavan.Base.{ℕ, ◌≡◌, refl, some, Option, ==_refl}
use vrindavan.Exec.{ok}
use vrindavan.Db.{Db, Clock}
use vrindavan.Inventory.Document.RoundTrip.{IsStored, Fresh}
use vrindavan.Trade.Document.RoundTrip.{create_priced-find, get_current_financial_year_id-reads}
use vrindavan.Sales.Order
use vrindavan.Sales.Quotation
use vrindavan.Sales.Invoice

pub sales_order-IsStored : IsStored Order.document
sales_order-IsStored = record {
  headers-put = λ xs db. refl;
  lines-put = λ xs db. refl;
  lines-headers_put = λ xs db. refl;
  headers-lines_put = λ xs db. refl;
  headers-sequences = λ s t. refl;
  lines-sequences = λ s t. refl;
  headers-drawn = λ s. refl;
  lines-drawn = λ s. refl;
}

-- A sales order that `createWithLines` returned is what `findById` finds under its id, the lines in
-- their order, where the id that is drawn for it is on no row yet.
pub create_sales_order-find :
    (clock : Clock) (props : Order.CreateSalesOrderProps) (by : Option ℕ) (s t : Db)
    (d : Order.SalesOrder)
    → Fresh Order.document sales_order-IsStored s
    → Order.create_sales_order clock props by s ≡ (ok d, t)
    → Order.find_sales_order d.header.id t ≡ (ok (some d), t)
unfolding Order.create_sales_order Order.find_sales_order Order.header_values Order.line_values
create_sales_order-find clock props by =
    create_priced-find Order.document sales_order-IsStored (Order.pricing clock props by)
      get_current_financial_year_id-reads (λ y cs n id. refl)
      (λ h p c s. (refl, (refl, ==_refl h.id))) props.lines

pub quotation-IsStored : IsStored Quotation.document
quotation-IsStored = record {
  headers-put = λ xs db. refl;
  lines-put = λ xs db. refl;
  lines-headers_put = λ xs db. refl;
  headers-lines_put = λ xs db. refl;
  headers-sequences = λ s t. refl;
  lines-sequences = λ s t. refl;
  headers-drawn = λ s. refl;
  lines-drawn = λ s. refl;
}

-- A quotation that `createWithLines` returned is what `findById` finds under its id, the lines in
-- their order, where the id that is drawn for it is on no row yet.
pub create_quotation-find :
    (clock : Clock) (props : Quotation.CreateQuotationProps) (by : Option ℕ) (s t : Db)
    (d : Quotation.Quotation)
    → Fresh Quotation.document quotation-IsStored s
    → Quotation.create_quotation clock props by s ≡ (ok d, t)
    → Quotation.find_quotation d.header.id t ≡ (ok (some d), t)
unfolding Quotation.create_quotation Quotation.find_quotation Quotation.header_values
    Quotation.line_values
create_quotation-find clock props by =
    create_priced-find Quotation.document quotation-IsStored (Quotation.pricing clock props by)
      (λ s. refl) (λ y cs n id. refl) (λ h p c s. (refl, (refl, ==_refl h.id))) props.lines

pub sales_invoice-IsStored : IsStored Invoice.document
sales_invoice-IsStored = record {
  headers-put = λ xs db. refl;
  lines-put = λ xs db. refl;
  lines-headers_put = λ xs db. refl;
  headers-lines_put = λ xs db. refl;
  headers-sequences = λ s t. refl;
  lines-sequences = λ s t. refl;
  headers-drawn = λ s. refl;
  lines-drawn = λ s. refl;
}

-- A sales invoice that `createWithLines` returned is what `findById` finds under its id, the lines in
-- their order, where the id that is drawn for it is on no row yet.
pub create_sales_invoice-find :
    (clock : Clock) (props : Invoice.CreateSalesInvoiceProps) (by : Option ℕ) (s t : Db)
    (d : Invoice.SalesInvoice)
    → Fresh Invoice.document sales_invoice-IsStored s
    → Invoice.create_sales_invoice clock props by s ≡ (ok d, t)
    → Invoice.find_sales_invoice d.header.id t ≡ (ok (some d), t)
unfolding Invoice.create_sales_invoice Invoice.find_sales_invoice Invoice.header_values
    Invoice.line_values
create_sales_invoice-find clock props by =
    create_priced-find Invoice.document sales_invoice-IsStored (Invoice.pricing clock props by)
      get_current_financial_year_id-reads (λ y cs n id. refl)
      (λ h p c s. (refl, (refl, ==_refl h.id))) props.lines
