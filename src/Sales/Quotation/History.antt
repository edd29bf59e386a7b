-- ===== src/Sales/Quotation/History.antt =====
-- Quotations over time: every call that the quotations service makes of its repository, in any
-- order (backend/src/modules/sales/application/quotations.service.ts).
use vrindavan.Base.{
  ℕ, String, ◌<◌, ◌≤◌, ◌≡◌, refl, ◌∙◌, ap, arith, true, Option, some, List, [], ◌∷◌, ==→eq,
  find_where-passes, subst, inl, inr, Bool-cases, Option-cases, find_where, update_where,
}
use vrindavan.Exec.{roll_back, Result, ok, err, ◌>>◌, pure}
use vrindavan.Exec.Within.{
  Within, Post, Within-seq, Within-pure, Within-gets, Within-map_each, Within-weaken,
}
use vrindavan.Db.{Db, Error, Clock, DocumentType, QuotationRow, QuotationStatus, SalesOrderRow}
use vrindavan.Tables.{has_id, update_all}
use vrindavan.Tables.Ids.{found-update}
use vrindavan.Tables.Sales.{quotations, sales_orders}
use vrindavan.Numbering.{next_document_number}
use vrindavan.Inventory.Document.{lines_for, to_domain, insert_row, delete_document}
use vrindavan.Inventory.Document.RoundTrip.{Yield, with_sequences, next_document_number-sequences}
use vrindavan.Trade.Document.{transition}
use vrindavan.Trade.Document.Laws.{get_current_financial_year_id-holds, create_priced-holds}
use vrindavan.Sales.Quotation
use vrindavan.Sales.Quotation.Life.{
  id_of, Moves, sends, accepts, rejects, converts, Reaches, status_at, Numbered, Lives,
  Lives-preorder, Elsewhere, Elsewhere-preorder, Lives-Elsewhere, new-LivesIn, set-LivesIn,
  deleted-LivesIn, status_code-injective,
}
use vrindavan.Sales.Order

pub data Call : Type 0 where
  create : Quotation.CreateQuotationProps → Option ℕ → Call
  send : ℕ → Call
  accept : ℕ → Call
  reject : ℕ → Call
  -- warehouse, who, quotation
  convert : ℕ → Option ℕ → ℕ → Call
  delete : ℕ → Call

-- The database after a call, whether it returned or threw.
unfoldable pub step : Clock → Call → Db → Db
step clock (create props by) s = (Quotation.create_quotation clock props by s).1
step clock (send id) s = (Quotation.send clock id s).1
step clock (accept id) s = (Quotation.accept clock id s).1
step clock (reject id) s = (Quotation.reject clock id s).1
step clock (convert warehouse by id) s =
    (Quotation.convert_to_sales_order clock warehouse by id s).1
step clock (delete id) s = (Quotation.delete_quotation id s).1

unfoldable pub run_quotations : List (Clock × Call) → Db → Db
unfolding step
run_quotations [] s = s
run_quotations ((clock, call) ∷ rest) s = run_quotations rest (step clock call s)

numbered :
    {B : Type 0} (s : Db) (r : Result Error B × Db)
    → Yield (λ n u. u ≡ with_sequences s u) r
    → Post Elsewhere s r
numbered s (ok n, u) e = (ap (λ t. t.sales.quotations) e, omega (arith, ap (λ t. t.next_id) e))
numbered s (err x, u) e = tt

next_document_number-Elsewhere :
    (t : DocumentType) (prefix : String) → Within Elsewhere (next_document_number t prefix)
next_document_number-Elsewhere t prefix = record {
  at = λ s. numbered s _ (next_document_number-sequences t prefix s);
}

create-Lives :
    (clock : Clock) (props : Quotation.CreateQuotationProps) (by : Option ℕ) (s : Db)
    → Lives s (Quotation.create_quotation clock props by s).1
unfolding Quotation.create_quotation Quotation.header_values Quotation.line_values
create-Lives clock props by =
    create_priced-holds Quotation.document Lives-preorder (Quotation.pricing clock props by)
      props.lines (Within-pure Lives-preorder tt)
      (Within-weaken Elsewhere Lives _ Lives-Elsewhere (next_document_number-Elsewhere _ _))
      (λ y cs n. record { at = λ s. new-LivesIn _ s.next_id s.sales.quotations refl })
      (λ h p c.
        Within-weaken Elsewhere Lives
          (insert_row Quotation.document Quotation.document.line_rows (Quotation.line_values h p c))
          Lives-Elsewhere record { at = λ s. (refl, omega arith) })

-- `transitionStatus`, along a move.
transition_status-Lives :
    (clock : Clock) (from to : QuotationStatus) (id : ℕ) (s : Db)
    → Moves (some from) (some to)
    → Lives s (Quotation.transition_status clock from to id s).1
unfolding Quotation.transition_status transition Quotation.set_status
transition_status-Lives clock from to id s move =
    elim (Option-cases (find_where (has_id quotations id) s.sales.quotations)) [
      | inl missing ↦ rw missing (Lives-preorder.rfl s)
      | inr (q, there) ↦ elim (Bool-cases (Quotation.in_status from q)) [
        | inr other ↦ rw (there, other) (Lives-preorder.rfl s)
        | inl this ↦
            rw
              (
                there,
                this,
                found-update id_of id (Quotation.set_status clock to) (λ r. refl) s.sales.quotations
                    there,
              )
              (set-LivesIn clock id q to s.next_id s.sales.quotations there
                (rw (status_code-injective q.status from this) move))
      ]
    ]

delete-Lives : (id : ℕ) (s : Db) → Lives s (Quotation.delete_quotation id s).1
unfolding Quotation.delete_quotation delete_document
delete-Lives id s = deleted-LivesIn id s.next_id s.sales.quotations

-- Of the quotations, a conversion writes the one alone.
abbrev pub Converted : Clock → ℕ → Db → Db → Type 0
Converted clock id s t =
    (t.sales.quotations
      ≡ update_where (has_id quotations id) (Quotation.set_status clock QuotationStatus.converted)
          s.sales.quotations)
    × (s.next_id ≤ t.next_id)

after :
    (clock : Clock) (id : ℕ) (s t u : Db)
    → Elsewhere s t
    → Converted clock id t u
    → Converted clock id s u
after clock id s t u (e, l) (f, m) = (
  f
      ∙ ap
          (update_where (has_id quotations id)
            (Quotation.set_status clock QuotationStatus.converted))
          e,
  omega (arith, l, m),
)

order_row-Elsewhere :
    (values : ℕ → SalesOrderRow)
    → Within Elsewhere (insert_row Quotation.document sales_orders values)
order_row-Elsewhere values = record { at = λ s. (refl, omega arith) }

marked-Converted :
    {A : Type 0} (clock : Clock) (id : ℕ) (a : A)
    → Within (Converted clock id) (
        update_all quotations
          (has_id quotations id)
          (Quotation.set_status clock QuotationStatus.converted)
        >> pure a)
marked-Converted clock id a = record { at = λ s. (refl, omega arith) }

pub conversion-Converted :
    (clock : Clock) (warehouse : ℕ) (by : Option ℕ) (q : QuotationRow)
    → Within (Converted clock q.id) (Quotation.conversion clock warehouse by q)
unfolding Quotation.conversion Quotation.copy_line
conversion-Converted clock warehouse by q =
    Within-seq (after clock q.id) _ _
      (Within-gets Elsewhere-preorder (lines_for Quotation.document q.id))
      λ rows.
        Within-seq (after clock q.id) _ _ (get_current_financial_year_id-holds Elsewhere-preorder)
          λ y.
            Within-seq (after clock q.id) _ _
              (next_document_number-Elsewhere DocumentType.sales_order "SO")
              λ n.
                Within-seq (after clock q.id) _ _
                  (order_row-Elsewhere (Quotation.order_header clock warehouse by q y n))
                  λ o.
                    Within-seq (after clock q.id) _ _
                      (Within-map_each Elsewhere-preorder rows (Quotation.copy_line o)
                        (λ l. record { at = λ s. (refl, omega arith) }))
                      λ ls. marked-Converted clock q.id (to_domain Order.document o ls)

settle :
    {A : Type 0} (clock : Clock) (id : ℕ) (q : QuotationRow) (s : Db) (r : Result Error A × Db)
    → find_where (has_id quotations id) s.sales.quotations ≡ some q
    → Quotation.in_status QuotationStatus.accepted q ≡ true
    → Post (Converted clock id) s r
    → Lives s (roll_back s r).1
settle clock id q s (err e, t) there this h = Lives-preorder.rfl s
settle clock id q s (ok o, t) there this (e, l) =
    let marked : Db = record s {
      sales = record s.sales {
        quotations =
            update_where (has_id quotations id)
              (Quotation.set_status clock QuotationStatus.converted) s.sales.quotations;
      };
    } in
    Lives-preorder.trans s marked t
      (set-LivesIn clock id q QuotationStatus.converted s.next_id s.sales.quotations there
        (rw (status_code-injective q.status QuotationStatus.accepted this) converts))
      (Lives-Elsewhere marked t (e, l))

pub convert-Lives :
    (clock : Clock) (warehouse : ℕ) (by : Option ℕ) (id : ℕ) (s : Db)
    → Lives s (Quotation.convert_to_sales_order clock warehouse by id s).1
unfolding Quotation.convert_to_sales_order
convert-Lives clock warehouse by id s =
    elim (Option-cases (find_where (has_id quotations id) s.sales.quotations)) [
      | inl missing ↦ rw missing (Lives-preorder.rfl s)
      | inr (q, there) ↦ elim (Bool-cases (Quotation.in_status QuotationStatus.accepted q)) [
        | inr other ↦ rw (there, other) (Lives-preorder.rfl s)
        | inl this ↦
            rw (there, this)
              (settle clock id q s (Quotation.conversion clock warehouse by q s) there this (
                subst
                  (λ k. Post (Converted clock k) s (Quotation.conversion clock warehouse by q s))
                  (==→eq q.id id
                    (find_where-passes (has_id quotations id) s.sales.quotations there))
                  ((conversion-Converted clock warehouse by q).at s)))
      ]
    ]

step-Lives : (clock : Clock) (call : Call) (s : Db) → Lives s (step clock call s)
unfolding step Quotation.send Quotation.accept Quotation.reject
step-Lives clock (create props by) s = create-Lives clock props by s
step-Lives clock (send id) s = transition_status-Lives clock _ _ id s sends
step-Lives clock (accept id) s = transition_status-Lives clock _ _ id s accepts
step-Lives clock (reject id) s = transition_status-Lives clock _ _ id s rejects
step-Lives clock (convert warehouse by id) s = convert-Lives clock warehouse by id s
step-Lives clock (delete id) s = delete-Lives id s

pub run_quotations-Lives :
    (history : List (Clock × Call)) (s : Db) → Lives s (run_quotations history s)
unfolding run_quotations
run_quotations-Lives [] s = Lives-preorder.rfl s
run_quotations-Lives ((clock, call) ∷ rest) s =
    Lives-preorder.trans s (step clock call s) (run_quotations rest (step clock call s))
      (step-Lives clock call s) (run_quotations-Lives rest (step clock call s))

-- After any history of quotation calls, whichever of them throw, a quotation whose id was drawn
-- before it has changed its status by moves of the state machine alone: draft to sent, sent to
-- accepted or rejected, accepted to converted, and a draft to deleted. The ids of the quotations
-- are distinct before.
pub run_quotations-Reaches :
    (history : List (Clock × Call)) (s : Db) (id : ℕ)
    → Numbered s
    → id < s.next_id
    → Reaches (status_at id s) (status_at id (run_quotations history s))
run_quotations-Reaches history s id n below = (run_quotations-Lives history s n).2 id below
