-- ===== src/Trade/Fulfilment/Laws.antt =====
-- What a note that was fulfilled has done to its order.
pub mod Call
pub mod Holds
use vrindavan.Base.{
  ℕ, suc, ◌+◌, ◌≡◌, refl, ◌∙◌, sym, ap, subst, arith, Bool, true, false, ◌&&◌, Option, none, some,
  List, [], ◌∷◌, map, inl, inr, Bool-cases, Option-cases, find_where, update_where, ◌==◌,
  if◌then◌else◌,
}
use vrindavan.Exec.{Result, ok, err, continue, ◌>>=◌, ◌>>◌, pure, for_each}
use vrindavan.Exec.Within.{Within, Post, Within-seq, Within-weaken}
use vrindavan.Db.{Db, Trx, Clock, Error}
use vrindavan.Tables.{Table, has_id}
use vrindavan.Stock.Frame.{OnlyStock, with_stock}
use vrindavan.Inventory.Document.{Document, Loaded, lines_for, approval}
use vrindavan.Inventory.Document.Laws.{approval_open, finish}
use vrindavan.Inventory.Document.Lines.{for_each-lines}
use vrindavan.Inventory.Document.RoundTrip.{Yield, Yield-continue, Yield-roll_back}
use vrindavan.Trade.Fulfilment.{
  Fulfils, fulfil_line, count_order_line, count_towards, lines_of_order, is_complete, is_begun,
  refresh_order, follow_order, fulfil,
}

-- The tables are apart, and what a line adds.
pub record IsFulfils {H L O M : Type 0} (f : Fulfils H L O M) : Type 0 where
  pub posts : (clock : Clock) (h : H) (l : L) (k : ℕ) → Within OnlyStock (f.post clock h l k)
  pub with_stock-rows :
      (s t : Db)
      → (f.orders.rows (with_stock s t) ≡ f.orders.rows s)
        × (f.order_lines.rows (with_stock s t) ≡ f.order_lines.rows s)
  pub headers-put :
      (xs : List H) (db : Db)
      → (f.orders.rows (f.note.headers.put xs db) ≡ f.orders.rows db)
        × (f.order_lines.rows (f.note.headers.put xs db) ≡ f.order_lines.rows db)
  pub order_lines-put :
      (xs : List M) (db : Db)
      → (f.orders.rows (f.order_lines.put xs db) ≡ f.orders.rows db)
        × (f.order_lines.rows (f.order_lines.put xs db) ≡ xs)
  pub orders-put :
      (xs : List O) (db : Db)
      → (f.orders.rows (f.orders.put xs db) ≡ xs)
        × (f.order_lines.rows (f.orders.put xs db) ≡ f.order_lines.rows db)
  pub add-fulfilled : (q : ℕ) (m : M) → f.fulfilled (f.add q m) ≡ f.fulfilled m + q
  pub add-id : (q : ℕ) (m : M) → f.order_lines.id_of (f.add q m) ≡ f.order_lines.id_of m

pub cons_row :
    {a b n k : ℕ} {xs ys : List (ℕ × ℕ)} → a ≡ b → n ≡ k → xs ≡ ys → (a, n) ∷ xs ≡ (b, k) ∷ ys
cons_row e g h = cc

module _ {H L O M : Type 0} (f : Fulfils H L O M) where
  abbrev pub counted_for : Option ℕ → ℕ → ℕ → ℕ
  counted_for none id quantity = 0
  counted_for (some other) id quantity = if id == other then quantity else 0

  -- What the lines of a note add to the order line of the id.
  abbrev pub owed : ℕ → List L → ℕ
  owed id [] = 0
  owed id (l ∷ ls) = counted_for (f.order_line_of l) id (f.quantity_on l) + owed id ls

  -- The order lines by id, with what is fulfilled of each once the lines of a note are added.
  abbrev pub progress : List L → List M → List (ℕ × ℕ)
  progress ls = map (λ m. (f.order_lines.id_of m, f.fulfilled m + owed (f.order_lines.id_of m) ls))

  -- The status that follows from the lines of an order: whether it is complete, and begun.
  abbrev pub status_for : Bool → Bool → Clock → O → O
  status_for true begun clock o = f.completed clock o
  status_for false true clock o = f.partially clock o
  status_for false false clock o = o

  abbrev pub followed : Clock → List M → O → O
  followed clock ms = status_for (is_complete f ms) (is_begun f ms) clock

  abbrev pub orders_after : Clock → Option ℕ → Db → List O → List O
  orders_after clock none t os = os
  orders_after clock (some id) t os =
      update_where (λ o. has_id f.orders id o && f.is_open o)
        (followed clock (lines_of_order f id t)) os

  -- The order lines have progressed by the lines of the note, and the order follows them.
  abbrev pub Fulfilled : Clock → Loaded H L → Db → Db → Type 0
  Fulfilled clock note s t =
      (progress [] (f.order_lines.rows t) ≡ progress note.lines (f.order_lines.rows s))
      × (f.orders.rows t ≡ orders_after clock (f.order_of note.header) t (f.orders.rows s))

  abbrev pub Counts : List L → Db → Db → Type 0
  Counts ls s t =
      (progress [] (f.order_lines.rows t) ≡ progress ls (f.order_lines.rows s))
      × (f.orders.rows t ≡ f.orders.rows s)

  module _ (laws : IsFulfils f) where
    added-progress :
        (id q : ℕ) (l : L) (ls : List L) (ms : List M)
        → f.order_line_of l ≡ some id
        → f.quantity_on l ≡ q
        → progress ls (update_where (has_id f.order_lines id) (f.add q) ms) ≡ progress (l ∷ ls) ms
    added-progress id q l ls [] e w = refl
    added-progress id q l ls (m ∷ ms) e w =
        let rest = added-progress id q l ls ms e w in
        elim (Bool-cases (has_id f.order_lines id m)) [
          | inl this ↦
              rw (e, w, this, laws.add-fulfilled q m, laws.add-id q m)
                (cons_row refl (omega arith) rest)
          | inr other ↦ rw (e, w, other) (cons_row refl (omega arith) rest)
        ]

    unreferenced-progress :
        (l : L) (ls : List L) (ms : List M)
        → f.order_line_of l ≡ none
        → progress ls ms ≡ progress (l ∷ ls) ms
    unreferenced-progress l ls [] e = refl
    unreferenced-progress l ls (m ∷ ms) e =
        rw e (cons_row refl (omega arith) (unreferenced-progress l ls ms e))

    -- One line, whichever lines follow.
    abbrev Added : L → Db → Db → Type 0
    Added l s t =
        ((ls : List L)
          → progress ls (f.order_lines.rows t) ≡ progress (l ∷ ls) (f.order_lines.rows s))
        × (f.orders.rows t ≡ f.orders.rows s)

    count_towards-Added :
        (clock : Clock) (l : L) (s : Db) (o : Option ℕ)
        → f.order_line_of l ≡ o
        → Post (Added l) s (count_order_line f l o s)
    count_towards-Added clock l s none e =
        (λ ls. unreferenced-progress l ls (f.order_lines.rows s) e, refl)
    count_towards-Added clock l s (some id) e =
        let put =
          laws.order_lines-put
            (update_where (has_id f.order_lines id) (f.add (f.quantity_on l))
              (f.order_lines.rows s))
            s in
        (
          λ ls.
              ap (progress ls) put.1
              ∙ added-progress id (f.quantity_on l) l ls (f.order_lines.rows s) e refl,
          put.0,
        )

    after_post : (l : L) (s t u : Db) → OnlyStock s t → Added l t u → Added l s u
    after_post l s t u e (p, o) =
        let kept = laws.with_stock-rows s t in
        (
          λ ls. p ls ∙ ap (progress (l ∷ ls)) (ap f.order_lines.rows e ∙ kept.1),
          o ∙ ap f.orders.rows e ∙ kept.0,
        )

    fulfil_line-Added : (clock : Clock) (h : H) (l : L) → Within (Added l) (fulfil_line f clock h l)
    unfolding fulfil_line
    fulfil_line-Added clock h l = record {
      at = λ s. elim (Option-cases (find_where (λ u. u.id == f.unit_of l) s.product_units)) [
        | inl missing ↦ rw missing tt
        | inr (u, found) ↦ rw found (
            (Within-seq (after_post l) (f.post clock h l u.conversion_factor)
                (λ _. count_towards f l) (laws.posts clock h l u.conversion_factor)
                (λ _. record {
                  at = λ t. count_towards-Added clock l t (f.order_line_of l) refl;
                })).at
              s)
      ];
    }

    pub lines-Counts :
        (clock : Clock) (h : H) (ls : List L)
        → Within (Counts ls) (for_each ls (fulfil_line f clock h))
    lines-Counts clock h =
        for_each-lines Counts (λ s. (refl, refl)) (fulfil_line f clock h)
          (λ l.
            Within-weaken (Added l) _ (fulfil_line f clock h l)
              (λ s t a ls u c. (c.0 ∙ a.0 ls, c.1 ∙ a.1)) (fulfil_line-Added clock h l))
