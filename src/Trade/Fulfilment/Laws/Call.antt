-- ===== src/Trade/Fulfilment/Laws/Call.antt =====
-- A whole call that fulfils: the approval of the note, then the order's status.
use vrindavan.Base.{
  ℕ, ◌≡◌, refl, ◌∙◌, ap, sym, Bool, false, ◌&&◌, Option, none, some, List, [], ◌∷◌, inl, inr,
  Bool-cases, Option-cases, find_where, update_where, select_where, ◌==◌, arith,
}
use vrindavan.Exec.{Result, ok, err, continue, pure, for_each}
use vrindavan.Exec.Within.{Post}
use vrindavan.Db.{Db, Trx, Clock, Error}
use vrindavan.Tables.{has_id}
use vrindavan.Inventory.Document.{Loaded, lines_for, approval}
use vrindavan.Inventory.Document.Laws.{approval_open, finish}
use vrindavan.Inventory.Document.RoundTrip.{Yield, Yield-continue, Yield-roll_back}
use vrindavan.Trade.Fulfilment.{
  Fulfils, fulfil_line, lines_of_order, is_complete, is_begun, refresh_order, follow_order, fulfil,
}
use vrindavan.Trade.Fulfilment.Laws.{
  IsFulfils, progress, status_for, followed, orders_after, Fulfilled, Counts, lines-Counts,
}

Post-Yield :
    {A B : Type 0} (R : Db → Db → Type 0) (Q : B → Db → Type 0) (s : Db) (r : Result Error A × Db)
    (f : A → Trx B)
    → Post R s r
    → ((a : A) (t : Db) → R s t → Yield Q (f a t))
    → Yield Q (continue r f)
Post-Yield R Q s (ok a, t) f h k = k a t h
Post-Yield R Q s (err e, t) f h k = tt

update_where-same :
    {A : Type 0} (p : A → Bool) (f : A → A) (xs : List A)
    → ((x : A) → f x ≡ x)
    → update_where p f xs ≡ xs
update_where-same p f [] h = refl
update_where-same p f (x ∷ xs) h = ground (arith, h x, update_where-same p f xs h)

module _ {H L O M : Type 0} (f : Fulfils H L O M) (laws : IsFulfils f) (clock : Clock) where
  abbrev Counted : Db → Loaded H L → Db → Type 0
  Counted s note t = Counts f note.lines s t

  finish-Counted :
      (id : ℕ) (rows : List L) (s t : Db)
      → Counts f rows s t
      → Yield (Counted s) (finish f.note (fulfil_line f clock) (f.stamp clock) id rows t)
  finish-Counted id rows s t (p, o) =
      let new = update_where (has_id f.note.headers id) (f.stamp clock) (f.note.headers.rows t) in
      let kept = laws.headers-put new t in
      elim (Option-cases
        (find_where (has_id f.note.headers id) (f.note.headers.rows (f.note.headers.put new t)))) [
          | inl missing ↦ rw missing tt
          | inr (h, found) ↦ rw found (ap (progress f []) kept.1 ∙ p, kept.0 ∙ o)
        ]

  approval-Counted :
      (id : ℕ) (s : Db)
      → Yield (Counted s) (approval f.note (fulfil_line f clock) (f.stamp clock) id s)
  approval-Counted id s =
      elim (Option-cases (find_where (has_id f.note.headers id) (f.note.headers.rows s))) [
        | inl missing ↦ unfold approval in rw missing tt
        | inr (h, found) ↦ elim (Bool-cases (f.note.is_draft h)) [
          | inr closed ↦ unfold approval in rw (found, closed) tt
          | inl draft ↦
              rw (approval_open f.note (fulfil_line f clock) (f.stamp clock) id s found draft) (
                Post-Yield (Counts f (lines_for f.note id s)) (Counted s) s
                  (for_each (lines_for f.note id s) (fulfil_line f clock h) s)
                  (λ _.
                    finish f.note (fulfil_line f clock) (f.stamp clock) id (lines_for f.note id s))
                  ((lines-Counts f laws clock h (lines_for f.note id s)).at s)
                  (λ _ t c. finish-Counted id (lines_for f.note id s) s t c))
        ]
      ]

  -- The status is written to the orders, and the lines stay.
  abbrev Follows : Option ℕ → Db → Db → Type 0
  Follows order t u =
      (f.order_lines.rows u ≡ f.order_lines.rows t)
      × (f.orders.rows u ≡ orders_after f clock order t (f.orders.rows t))

  abbrev written : ℕ → Db → (O → O) → List O
  written id t g = update_where (λ o. has_id f.orders id o && f.is_open o) g (f.orders.rows t)

  refresh_order-Follows :
      (id : ℕ) (t : Db) → Yield (λ _. Follows (some id) t) (refresh_order f clock id t)
  unfolding refresh_order
  refresh_order-Follows id t = elim (Bool-cases (is_complete f (lines_of_order f id t))) [
    | inl complete ↦
        let put =
          laws.orders-put
            (update_where (λ o. has_id f.orders id o && f.is_open o) (f.completed clock)
              (f.orders.rows t))
            t in
        rw complete (
          put.1,
          put.0
              ∙ sym (
                  ap (written id t)
                    (ap (λ c. status_for f c (is_begun f (lines_of_order f id t)) clock) complete)),
        )
    | inr incomplete ↦ elim (Bool-cases (is_begun f (lines_of_order f id t))) [
      | inl begun ↦
          let put =
            laws.orders-put
              (update_where (λ o. has_id f.orders id o && f.is_open o) (f.partially clock)
                (f.orders.rows t))
              t in
          rw (incomplete, begun)
            (
              put.1,
              put.0
                  ∙ sym (
                      ap (written id t) (
                        ap (λ c. status_for f c (is_begun f (lines_of_order f id t)) clock)
                          incomplete
                        ∙ ap (λ b. status_for f false b clock) begun)),
            )
      | inr untouched ↦
          rw (incomplete, untouched)
            (
              refl,
              sym (
                    update_where-same (λ o. has_id f.orders id o && f.is_open o) (λ o. o)
                      (f.orders.rows t) (λ o. refl))
                  ∙ sym (
                      ap (written id t) (
                        ap (λ c. status_for f c (is_begun f (lines_of_order f id t)) clock)
                          incomplete
                        ∙ ap (λ b. status_for f false b clock) untouched)),
            )
    ]
  ]

  follow_order-Follows :
      (order : Option ℕ) (t : Db) → Yield (λ _. Follows order t) (follow_order f clock order t)
  follow_order-Follows none t = (refl, refl)
  follow_order-Follows (some id) t = refresh_order-Follows id t

  followed-Fulfilled :
      (s t u : Db) (note : Loaded H L)
      → Counted s note t
      → Follows (f.order_of note.header) t u
      → Fulfilled f clock note s u
  followed-Fulfilled s t u note (p, o) (lines, orders) = (
    ap (progress f []) lines ∙ p,
    orders
        ∙ ap (orders_after f clock (f.order_of note.header) t) o
        ∙ sym (same_after (f.order_of note.header)),
  )
    where
      same_after :
          (order : Option ℕ)
          → orders_after f clock order u (f.orders.rows s)
            ≡ orders_after f clock order t (f.orders.rows s)
      same_after none = refl
      same_after (some id) =
          ap
            (λ ms.
              update_where (λ o. has_id f.orders id o && f.is_open o)
                (followed f clock (select_where (λ m. f.order_of_line m == id) ms))
                (f.orders.rows s))
            lines

  pub fulfil-Fulfilled :
      (id : ℕ) (s : Db) → Yield (λ note t. Fulfilled f clock note s t) (fulfil f clock id s)
  unfolding fulfil
  fulfil-Fulfilled id s =
      Yield-roll_back (λ note t. Fulfilled f clock note s t) s _
        (Yield-continue (Counted s) (λ note t. Fulfilled f clock note s t)
          (approval f.note (fulfil_line f clock) (f.stamp clock) id s) _ (approval-Counted id s)
          λ note t c.
            Yield-continue (λ _. Follows (f.order_of note.header) t)
              (λ note t. Fulfilled f clock note s t)
              (follow_order f clock (f.order_of note.header) t) (λ _. pure note)
              (follow_order-Follows (f.order_of note.header) t)
              (λ _ u g. followed-Fulfilled s t u note c g))
