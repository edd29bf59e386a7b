-- ===== src/Sales/Quotation/Once.antt =====
-- A quotation is converted once (`convertToSalesOrder` of
-- backend/src/modules/sales/infrastructure/quotation.kysely-repository.ts).
use vrindavan.Base.{
  ℕ, ◌<◌, ◌≤◌, ◌≡◌, refl, subst, arith, Option, none, some, List, inl, inr, Bool-cases,
  Option-cases, find_where, ==→eq, find_where-passes,
}
use vrindavan.Exec.{ok, err}
use vrindavan.Exec.Within.{Within, Post, Post-map, Post-roll_back, Within-returned}
use vrindavan.Db.{Db, Clock, QuotationRow, QuotationStatus, document_not_draft}
use vrindavan.Tables.{has_id}
use vrindavan.Tables.Ids.{found-update}
use vrindavan.Tables.Sales.{quotations}
use vrindavan.Sales.Order.{SalesOrder}
use vrindavan.Sales.Quotation.{in_status, set_status, conversion, convert_to_sales_order}
use vrindavan.Sales.Quotation.Life.{
  id_of, Reaches, stays, goes, sends, accepts, rejects, converts, deletes, status_of, status_at,
  Numbered,
}
use vrindavan.Sales.Quotation.History.{
  Call, run_quotations, Converted, conversion-Converted, convert-Lives, run_quotations-Lives,
}

-- No move leads on from a converted quotation.
converted-stays :
    (x y : Option QuotationStatus)
    → Reaches x y
    → x ≡ some QuotationStatus.converted
    → y ≡ some QuotationStatus.converted
converted-stays x y (stays z) e = e
converted-stays x y (goes sends r) e = cc
converted-stays x y (goes accepts r) e = cc
converted-stays x y (goes rejects r) e = cc
converted-stays x y (goes converts r) e = cc
converted-stays x y (goes deletes r) e = cc

abbrev Ends : ℕ → Db → Db → Type 0
Ends id s t = status_at id t ≡ some QuotationStatus.converted

abbrev IsLater : Db → Db → Type 0
IsLater s t = (s.next_id ≤ t.next_id) × Numbered t

convert-Within :
    (clock : Clock) (warehouse : ℕ) (by : Option ℕ) (id : ℕ)
    → Within (Ends id) (convert_to_sales_order clock warehouse by id)
unfolding convert_to_sales_order set_status
convert-Within clock warehouse by id = record { at = run }
  where
    run : (s : Db) → Post (Ends id) s (convert_to_sales_order clock warehouse by id s)
    run s = elim (Option-cases (find_where (has_id quotations id) s.sales.quotations)) [
      | inl missing ↦ rw missing tt
      | inr (q, there) ↦ elim (Bool-cases (in_status QuotationStatus.accepted q)) [
        | inr other ↦ rw (there, other) tt
        | inl this ↦
            rw (there, this)
              (Post-roll_back (Ends id) s (conversion clock warehouse by q s) (
                Post-map (Converted clock q.id) (Ends id) s s (conversion clock warehouse by q s)
                  (λ t c.
                    rw
                      (
                        c.0,
                        ==→eq q.id id
                            (find_where-passes (has_id quotations id) s.sales.quotations there),
                        found-update id_of id (set_status clock QuotationStatus.converted)
                            (λ r. refl) s.sales.quotations there,
                      )
                      refl)
                  ((conversion-Converted clock warehouse by q).at s)))
      ]
    ]

convert-refuses :
    (clock : Clock) (warehouse : ℕ) (by : Option ℕ) (id : ℕ) (s : Db) (o : Option QuotationRow)
    → find_where (has_id quotations id) s.sales.quotations ≡ o
    → status_of o ≡ some QuotationStatus.converted
    → convert_to_sales_order clock warehouse by id s ≡ (err (document_not_draft id), s)
unfolding convert_to_sales_order
convert-refuses clock warehouse by id s none e c = cc
convert-refuses clock warehouse by id s (some q) e c = rw (e, status) refl
  where
    status : q.status ≡ QuotationStatus.converted
    status = cc

-- A conversion that returned is the last one: after any history of quotation calls that follows it,
-- converting the quotation again throws that it is not accepted and writes nothing.
pub convert_twice :
    (clock later : Clock) (warehouse other : ℕ) (by who : Option ℕ) (id : ℕ) (s t : Db)
    (order : SalesOrder) (history : List (Clock × Call))
    → Numbered s
    → id < s.next_id
    → convert_to_sales_order clock warehouse by id s ≡ (ok order, t)
    → convert_to_sales_order later other who id (run_quotations history t)
      ≡ (err (document_not_draft id), run_quotations history t)
convert_twice clock later warehouse other by who id s t order history n below returned =
    let lives = convert-Lives clock warehouse by id s n in
    let after = subst (λ r. IsLater s r.1) returned (lives.0, lives.1) in
    convert-refuses later other who id (run_quotations history t) _ refl (
      converted-stays (status_at id t) (status_at id (run_quotations history t))
        ((run_quotations-Lives history t after.1).2 id (omega (arith, below, after.0)))
        (Within-returned (convert_to_sales_order clock warehouse by id) s t order
          (convert-Within clock warehouse by id) returned))
