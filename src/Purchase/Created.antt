-- ===== src/Purchase/Created.antt =====
-- A purchase order and a purchase invoice that were made are found (`createWithLines` and `findById`
-- of {purchase-order,purchase-invoice}.kysely-repository.ts).
use vrindavan.Base.{ℕ, ◌≡◌, refl, some, Option, ==_refl}
use vrindavan.Exec.{ok}
use vrindavan.Db.{Db, Clock}
use vrindavan.Inventory.Document.RoundTrip.{IsStored, Fresh}
use vrindavan.Trade.Document.RoundTrip.{create_priced-find, get_current_financial_year_id-reads}
use vrindavan.Purchase.Order
use vrindavan.Purchase.Invoice

pub purchase_order-IsStored : IsStored Order.document
purchase_order-IsStored = record {
  headers-put = λ xs db. refl;
  lines-put = λ xs db. refl;
  lines-headers_put = λ xs db. refl;
  headers-lines_put = λ xs db. refl;
  headers-sequences = λ s t. refl;
  lines-sequences = λ s t. refl;
  headers-drawn = λ s. refl;
  lines-drawn = λ s. refl;
}

-- A purchase order that `createWithLines` returned is what `findById` finds under its id, the lines in
-- their order, where the id that is drawn for it is on no row yet.
pub create_purchase_order-find :
    (clock : Clock) (props : Order.CreatePurchaseOrderProps) (by : Option ℕ) (s t : Db)
    (d : Order.PurchaseOrder)
    → Fresh Order.document purchase_order-IsStored s
    → Order.create_purchase_order clock props by s ≡ (ok d, t)
    → Order.find_purchase_order d.header.id t ≡ (ok (some d), t)
unfolding Order.create_purchase_order Order.find_purchase_order Order.header_values
    Order.line_values
create_purchase_order-find clock props by =
    create_priced-find Order.document purchase_order-IsStored (Order.pricing clock props by)
      get_current_financial_year_id-reads (λ y cs n id. refl)
      (λ h p c s. (refl, (refl, ==_refl h.id))) props.lines

pub purchase_invoice-IsStored : IsStored Invoice.document
purchase_invoice-IsStored = record {
  headers-put = λ xs db. refl;
  lines-put = λ xs db. refl;
  lines-headers_put = λ xs db. refl;
  headers-lines_put = λ xs db. refl;
  headers-sequences = λ s t. refl;
  lines-sequences = λ s t. refl;
  headers-drawn = λ s. refl;
  lines-drawn = λ s. refl;
}

-- A purchase invoice that `createWithLines` returned is what `findById` finds under its id, the lines in
-- their order, where the id that is drawn for it is on no row yet.
pub create_purchase_invoice-find :
    (clock : Clock) (props : Invoice.CreatePurchaseInvoiceProps) (by : Option ℕ) (s t : Db)
    (d : Invoice.PurchaseInvoice)
    → Fresh Invoice.document purchase_invoice-IsStored s
    → Invoice.create_purchase_invoice clock props by s ≡ (ok d, t)
    → Invoice.find_purchase_invoice d.header.id t ≡ (ok (some d), t)
unfolding Invoice.create_purchase_invoice Invoice.find_purchase_invoice Invoice.header_values
    Invoice.line_values
create_purchase_invoice-find clock props by =
    create_priced-find Invoice.document purchase_invoice-IsStored (Invoice.pricing clock props by)
      get_current_financial_year_id-reads (λ y cs n id. refl)
      (λ h p c s. (refl, (refl, ==_refl h.id))) props.lines
