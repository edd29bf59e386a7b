-- ===== src/Purchase/System/Spares.antt =====
-- What the calls of the purchase module leave alone: a part of the database that reads none of the tables
-- that they write, save those of invoices and payments, whose calls may do as they please.
use vrindavan.Base.{ℕ, Option}
use vrindavan.Exec.Within.{Within-bind, Within-gets}
use vrindavan.Db.{Db, Clock}
use vrindavan.Stock.Posting.{live_balance_at}
use vrindavan.Inventory.Document.Spares.{
  Spares, Spares-preorder, IsOutside, IsBlind, IsStockless, inserted_row-Spares,
  post_stock_movement-Spares, create_document-Spares, approve_document-Spares,
  delete_document-Spares,
}
use vrindavan.Trade.Document.Laws.{get_current_financial_year_id-holds}
use vrindavan.Trade.Spares.{
  create_priced-Spares, transition-Spares, fulfil-Spares, create_with_allocations-Spares,
}
use vrindavan.Purchase.Order
use vrindavan.Purchase.Grn
use vrindavan.Purchase.Return
use vrindavan.Purchase.Invoice
use vrindavan.Purchase.Payment
use vrindavan.Purchase.Billing
use vrindavan.Purchase.System.{
  Call, step, create_order, approve_order, cancel_order, delete_order, create_grn, complete_grn,
  delete_grn, create_return, approve_return, delete_return, create_invoice, approve_invoice,
  delete_invoice, create_payment,
}

pub record IsOutsideDocuments {X : Type 0} (part : Db → X) : Type 0 where
  pub orders : IsOutside part Order.document.headers
  pub order_lines : IsOutside part Order.document.line_rows
  pub grns : IsOutside part Grn.document.headers
  pub grn_lines : IsOutside part Grn.document.line_rows
  pub returns : IsOutside part Return.document.headers
  pub return_lines : IsOutside part Return.document.line_rows

module _ {X : Type 0} (part : Db → X) (blind : IsBlind part) (apart : IsOutsideDocuments part) where
  pub complete_grn-Spares :
      IsStockless part
      → (clock : Clock) (id : ℕ) (s : Db) → Spares part s (Grn.complete_grn clock id s).1
  unfolding Grn.complete_grn Grn.post_line
  complete_grn-Spares stock clock =
      fulfil-Spares part blind Grn.fulfils clock
        (λ h l k. post_stock_movement-Spares part stock clock (Grn.movement h l k)) apart.grns
        apart.orders apart.order_lines

  pub approve_return-Spares :
      IsStockless part
      → (clock : Clock) (by : Option ℕ) (id : ℕ) (s : Db)
      → Spares part s (Return.approve_purchase_return clock by id s).1
  unfolding Return.approve_purchase_return Return.post_line
  approve_return-Spares stock clock by =
      approve_document-Spares part blind Return.document apart.returns (Return.post_line clock)
        (Return.stamp_approved clock by)
        (λ h l.
          let K = Spares-preorder part in
          Within-bind K _ _
            (Within-gets K (λ db. live_balance_at (Return.line_dims h l) db.stock_balances))
            λ b.
              post_stock_movement-Spares part stock clock
                (Return.movement h l (Return.cost_or_rate b l.rate)))

  -- A relation that allows what spares the part, the calls on invoices and payments, and the calls
  -- that post stock.
  module _ (R : Db → Db → Type 0) (allows : (s t : Db) → Spares part s t → R s t)
      (bills : (clock : Clock) (call : Billing.Call) (s : Db) → R s (Billing.step clock call s))
      (delivers : (clock : Clock) (id : ℕ) (s : Db) → R s (Grn.complete_grn clock id s).1)
      (approves : (clock : Clock) (by : Option ℕ) (id : ℕ) (s : Db)
        → R s (Return.approve_purchase_return clock by id s).1) where
    pub step-holds : (clock : Clock) (call : Call) (s : Db) → R s (step clock call s)
    unfolding step Billing.step Order.create_purchase_order Order.approve_purchase_order
        Order.cancel_purchase_order Order.delete_purchase_order Grn.create_grn Grn.insert_line
        Grn.delete_grn Return.create_purchase_return Return.insert_line
        Return.delete_purchase_return
    step-holds clock (create_order props by) = λ s. allows s _ (
        create_priced-Spares part blind Order.document apart.orders (Order.pricing clock props by)
          props.lines apart.order_lines (get_current_financial_year_id-holds (Spares-preorder part))
          s)
    step-holds clock (approve_order by id) =
        λ s. allows s _ (transition-Spares part blind Order.document apart.orders _ _ id s)
    step-holds clock (cancel_order id) =
        λ s. allows s _ (transition-Spares part blind Order.document apart.orders _ _ id s)
    step-holds clock (delete_order id) = λ s.
        allows s _ (delete_document-Spares part Order.document apart.orders apart.order_lines id s)
    step-holds clock (create_grn props by) = λ s. allows s _ (
        create_document-Spares part blind Grn.document apart.grns _ props.lines Grn.insert_line
          (λ h p.
            inserted_row-Spares part blind Grn.document Grn.document.line_rows apart.grn_lines _)
          s)
    step-holds clock (complete_grn id) = delivers clock id
    step-holds clock (delete_grn id) =
        λ s. allows s _ (delete_document-Spares part Grn.document apart.grns apart.grn_lines id s)
    step-holds clock (create_return props by) = λ s. allows s _ (
        create_document-Spares part blind Return.document apart.returns _ props.lines
          Return.insert_line
          (λ h p.
            inserted_row-Spares part blind Return.document Return.document.line_rows
              apart.return_lines _)
          s)
    step-holds clock (approve_return by id) = approves clock by id
    step-holds clock (delete_return id) = λ s.
        allows s _
          (delete_document-Spares part Return.document apart.returns apart.return_lines id s)
    step-holds clock (create_invoice props by) = bills clock (Billing.create_invoice props by)
    step-holds clock (approve_invoice by id) = bills clock (Billing.approve_invoice by id)
    step-holds clock (delete_invoice id) = bills clock (Billing.delete_invoice id)
    step-holds clock (create_payment props by) = bills clock (Billing.create_payment props by)

  -- Where the part does not read the stock tables, those calls spare it too.
  pub stockless_step-holds :
      IsStockless part
      → (R : Db → Db → Type 0) → ((s t : Db) → Spares part s t → R s t)
      → ((clock : Clock) (call : Billing.Call) (s : Db) → R s (Billing.step clock call s))
      → (clock : Clock) (call : Call) (s : Db) → R s (step clock call s)
  stockless_step-holds stock R allows bills =
      step-holds R allows bills
        (λ clock id s.
          allows s (Grn.complete_grn clock id s).1 (complete_grn-Spares stock clock id s))
        (λ clock by id s.
          allows s (Return.approve_purchase_return clock by id s).1
            (approve_return-Spares stock clock by id s))

-- The calls on invoices and payments spare what reads none of their tables.
module _ {X : Type 0} (part : Db → X) (blind : IsBlind part)
    (invoices : IsOutside part Invoice.document.headers)
    (invoice_lines : IsOutside part Invoice.document.line_rows)
    (payments : IsOutside part Payment.document.headers)
    (allocations : IsOutside part Payment.document.line_rows) where
  pub bills-Spares :
      (clock : Clock) (call : Billing.Call) (s : Db) → Spares part s (Billing.step clock call s)
  unfolding Billing.step Invoice.create_purchase_invoice Invoice.approve_purchase_invoice
      Invoice.delete_purchase_invoice Payment.create_supplier_payment
  bills-Spares clock (Billing.create_invoice props by) =
      create_priced-Spares part blind Invoice.document invoices (Invoice.pricing clock props by)
        props.lines invoice_lines (get_current_financial_year_id-holds (Spares-preorder part))
  bills-Spares clock (Billing.approve_invoice by id) =
      transition-Spares part blind Invoice.document invoices _ _ id
  bills-Spares clock (Billing.delete_invoice id) =
      delete_document-Spares part Invoice.document invoices invoice_lines id
  bills-Spares clock (Billing.create_payment props by) =
      create_with_allocations-Spares part blind Payment.billing payments allocations invoices clock
        props.supplier_id props.amount (Payment.header_values clock props by) props.allocations
