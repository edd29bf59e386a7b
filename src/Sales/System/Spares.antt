-- ===== src/Sales/System/Spares.antt =====
-- What the calls of the sales module leave alone: a part of the database that reads none of the tables
-- that they write, save those of invoices and payments, whose calls may do as they please.
use vrindavan.Base.{ℕ, not, Option, find_where}
use vrindavan.Exec.Within.{
  Within, Within-bind, Within-then, Within-pure, Within-gets, Within-or_throw, Within-throw_if,
  Within-map_each, transaction-holds,
}
use vrindavan.Db.{
  Db, Clock, DocumentType, QuotationRow, QuotationStatus, document_not_found, document_not_draft,
}
use vrindavan.Tables.{has_id}
use vrindavan.Stock.Posting.{live_balance_at}
use vrindavan.Inventory.Document.{lines_for, to_domain}
use vrindavan.Inventory.Return.{return_cost}
use vrindavan.Inventory.Document.Spares.{
  Spares, Spares-preorder, IsOutside, IsBlind, IsStockless, inserted_row-Spares,
  updated_rows-Spares, next_document_number-Spares, post_stock_movement-Spares,
  create_document-Spares, approve_document-Spares, delete_document-Spares,
}
use vrindavan.Trade.Document.Laws.{get_current_financial_year_id-holds}
use vrindavan.Trade.Spares.{
  create_priced-Spares, transition-Spares, fulfil-Spares, create_with_allocations-Spares,
}
use vrindavan.Sales.Order
use vrindavan.Sales.Quotation
use vrindavan.Sales.Challan
use vrindavan.Sales.Return
use vrindavan.Sales.Invoice
use vrindavan.Sales.Payment
use vrindavan.Sales.Billing
use vrindavan.Sales.Challan.Delivered
use vrindavan.Tables.Sales.{quotations, sales_orders, sales_order_lines}
use vrindavan.Sales.System.{
  Call, step, create_order, approve_order, cancel_order, delete_order, create_quotation,
  send_quotation, accept_quotation, reject_quotation, convert_quotation, delete_quotation,
  create_challan, deliver_challan, delete_challan, create_return, approve_return, delete_return,
  create_invoice, approve_invoice, delete_invoice, create_payment,
}

pub record IsOutsideDocuments {X : Type 0} (part : Db → X) : Type 0 where
  pub orders : IsOutside part Order.document.headers
  pub order_lines : IsOutside part Order.document.line_rows
  pub quotations : IsOutside part Quotation.document.headers
  pub quotation_lines : IsOutside part Quotation.document.line_rows
  pub challans : IsOutside part Challan.document.headers
  pub challan_lines : IsOutside part Challan.document.line_rows
  pub returns : IsOutside part Return.document.headers
  pub return_lines : IsOutside part Return.document.line_rows

module _ {X : Type 0} (part : Db → X) (blind : IsBlind part) (apart : IsOutsideDocuments part) where
  pub deliver-Spares :
      IsStockless part
      → (clock : Clock) (id : ℕ) (s : Db) → Spares part s (Challan.deliver clock id s).1
  unfolding Challan.deliver
  deliver-Spares stock clock =
      fulfil-Spares part blind Challan.fulfils clock
        (Delivered.post_line-Within (Spares-preorder part) clock
          (post_stock_movement-Spares part stock clock))
        apart.challans apart.orders apart.order_lines

  pub approve_return-Spares :
      IsStockless part
      → (clock : Clock) (by : Option ℕ) (id : ℕ) (s : Db)
      → Spares part s (Return.approve_sales_return clock by id s).1
  unfolding Return.approve_sales_return Return.post_line
  approve_return-Spares stock clock by =
      approve_document-Spares part blind Return.document apart.returns (Return.post_line clock)
        (Return.stamp_approved clock by)
        (λ h l.
          let K = Spares-preorder part in
          Within-bind K _ _
            (Within-gets K (λ db. live_balance_at (Return.line_dims h l) db.stock_balances))
            λ b.
              Within-bind K _ _ (Within-gets K (return_cost b l.product_id))
                λ c. post_stock_movement-Spares part stock clock (Return.movement h l c))

  conversion-Spares :
      (clock : Clock) (warehouse : ℕ) (by : Option ℕ) (q : QuotationRow)
      → Within (Spares part) (Quotation.conversion clock warehouse by q)
  unfolding Quotation.conversion Quotation.copy_line
  conversion-Spares clock warehouse by q =
      let K = Spares-preorder part in
      Within-bind K _ _ (Within-gets K (lines_for Quotation.document q.id)) λ rows.
        Within-bind K _ _ (get_current_financial_year_id-holds K) λ y.
          Within-bind K _ _ (next_document_number-Spares part blind DocumentType.sales_order "SO")
            λ n.
              Within-bind K _ _
                (inserted_row-Spares part blind Quotation.document sales_orders apart.orders
                  (Quotation.order_header clock warehouse by q y n))
                λ o.
                  Within-bind K _ _
                    (Within-map_each K rows (Quotation.copy_line o) (λ l.
                      inserted_row-Spares part blind Quotation.document sales_order_lines
                        apart.order_lines (Quotation.order_line o l)))
                    λ ls.
                      Within-then K _ _
                        (updated_rows-Spares part quotations apart.quotations
                          (has_id quotations q.id)
                          (Quotation.set_status clock QuotationStatus.converted))
                        (Within-pure K (to_domain Order.document o ls))

  convert-Spares :
      (clock : Clock) (warehouse : ℕ) (by : Option ℕ) (id : ℕ) (s : Db)
      → Spares part s (Quotation.convert_to_sales_order clock warehouse by id s).1
  unfolding Quotation.convert_to_sales_order
  convert-Spares clock warehouse by id s =
      let K = Spares-preorder part in
      transaction-holds K _ s (
        Within-bind K _ _
          (Within-gets K (λ db. find_where (has_id quotations id) db.sales.quotations))
          λ found. Within-bind K _ _ (Within-or_throw K found (document_not_found id)) λ q.
            Within-then K _ _
              (Within-throw_if K (not (Quotation.in_status QuotationStatus.accepted q))
                (document_not_draft id))
              (conversion-Spares clock warehouse by q))

  -- A relation that allows what spares the part, the calls on invoices and payments, and the calls
  -- that post stock.
  module _ (R : Db → Db → Type 0) (allows : (s t : Db) → Spares part s t → R s t)
      (bills : (clock : Clock) (call : Billing.Call) (s : Db) → R s (Billing.step clock call s))
      (delivers : (clock : Clock) (id : ℕ) (s : Db) → R s (Challan.deliver clock id s).1)
      (approves : (clock : Clock) (by : Option ℕ) (id : ℕ) (s : Db)
        → R s (Return.approve_sales_return clock by id s).1) where
    pub step-holds : (clock : Clock) (call : Call) (s : Db) → R s (step clock call s)
    unfolding step Billing.step Order.create_sales_order Order.approve_sales_order
        Order.cancel_sales_order Order.delete_sales_order Quotation.create_quotation Quotation.send
        Quotation.accept Quotation.reject Quotation.transition_status Quotation.delete_quotation
        Challan.create_delivery_challan Challan.insert_line Challan.delete_delivery_challan
        Return.create_sales_return Return.insert_line Return.delete_sales_return
    step-holds clock (create_order props by) = λ s. allows s _ (
        create_priced-Spares part blind Order.document apart.orders (Order.pricing clock props by)
          props.lines apart.order_lines (get_current_financial_year_id-holds (Spares-preorder part))
          s)
    step-holds clock (approve_order by id) =
        λ s. allows s _ (transition-Spares part blind Order.document apart.orders _ _ id s)
    step-holds clock (cancel_order id) =
        λ s. allows s _ (transition-Spares part blind Order.document apart.orders _ _ id s)
    step-holds clock (delete_order id) = λ s.
        allows s _ (delete_document-Spares part Order.document apart.orders apart.order_lines id s)
    step-holds clock (create_quotation props by) = λ s. allows s _ (
        create_priced-Spares part blind Quotation.document apart.quotations
          (Quotation.pricing clock props by) props.lines apart.quotation_lines
          (Within-pure (Spares-preorder part) tt) s)
    step-holds clock (send_quotation id) =
        λ s. allows s _ (transition-Spares part blind Quotation.document apart.quotations _ _ id s)
    step-holds clock (accept_quotation id) =
        λ s. allows s _ (transition-Spares part blind Quotation.document apart.quotations _ _ id s)
    step-holds clock (reject_quotation id) =
        λ s. allows s _ (transition-Spares part blind Quotation.document apart.quotations _ _ id s)
    step-holds clock (convert_quotation warehouse by id) =
        λ s. allows s _ (convert-Spares clock warehouse by id s)
    step-holds clock (delete_quotation id) = λ s.
        allows s _ (
          delete_document-Spares part Quotation.document apart.quotations apart.quotation_lines id
            s)
    step-holds clock (create_challan props by) = λ s. allows s _ (
        create_document-Spares part blind Challan.document apart.challans _ props.lines
          Challan.insert_line
          (λ h p.
            inserted_row-Spares part blind Challan.document Challan.document.line_rows
              apart.challan_lines _)
          s)
    step-holds clock (deliver_challan id) = delivers clock id
    step-holds clock (delete_challan id) = λ s.
        allows s _
          (delete_document-Spares part Challan.document apart.challans apart.challan_lines id s)
    step-holds clock (create_return props by) = λ s. allows s _ (
        create_document-Spares part blind Return.document apart.returns _ props.lines
          Return.insert_line
          (λ h p.
            inserted_row-Spares part blind Return.document Return.document.line_rows
              apart.return_lines _)
          s)
    step-holds clock (approve_return by id) = approves clock by id
    step-holds clock (delete_return id) = λ s.
        allows s _
          (delete_document-Spares part Return.document apart.returns apart.return_lines id s)
    step-holds clock (create_invoice props by) = bills clock (Billing.create_invoice props by)
    step-holds clock (approve_invoice by id) = bills clock (Billing.approve_invoice by id)
    step-holds clock (delete_invoice id) = bills clock (Billing.delete_invoice id)
    step-holds clock (create_payment props by) = bills clock (Billing.create_payment props by)

  -- Where the part does not read the stock tables, those calls spare it too.
  pub stockless_step-holds :
      IsStockless part
      → (R : Db → Db → Type 0) → ((s t : Db) → Spares part s t → R s t)
      → ((clock : Clock) (call : Billing.Call) (s : Db) → R s (Billing.step clock call s))
      → (clock : Clock) (call : Call) (s : Db) → R s (step clock call s)
  stockless_step-holds stock R allows bills =
      step-holds R allows bills
        (λ clock id s. allows s (Challan.deliver clock id s).1 (deliver-Spares stock clock id s))
        (λ clock by id s.
          allows s (Return.approve_sales_return clock by id s).1
            (approve_return-Spares stock clock by id s))

-- The calls on invoices and payments spare what reads none of their tables.
module _ {X : Type 0} (part : Db → X) (blind : IsBlind part)
    (invoices : IsOutside part Invoice.document.headers)
    (invoice_lines : IsOutside part Invoice.document.line_rows)
    (payments : IsOutside part Payment.document.headers)
    (allocations : IsOutside part Payment.document.line_rows) where
  pub bills-Spares :
      (clock : Clock) (call : Billing.Call) (s : Db) → Spares part s (Billing.step clock call s)
  unfolding Billing.step Invoice.create_sales_invoice Invoice.approve_sales_invoice
      Invoice.delete_sales_invoice Payment.create_customer_payment
  bills-Spares clock (Billing.create_invoice props by) =
      create_priced-Spares part blind Invoice.document invoices (Invoice.pricing clock props by)
        props.lines invoice_lines (get_current_financial_year_id-holds (Spares-preorder part))
  bills-Spares clock (Billing.approve_invoice by id) =
      transition-Spares part blind Invoice.document invoices _ _ id
  bills-Spares clock (Billing.delete_invoice id) =
      delete_document-Spares part Invoice.document invoices invoice_lines id
  bills-Spares clock (Billing.create_payment props by) =
      create_with_allocations-Spares part blind Payment.billing payments allocations invoices clock
        props.customer_id props.amount (Payment.header_values clock props by) props.allocations
