-- ===== src/Trade/Fulfilment/Returns.antt =====
-- When fulfilling an order returns: a draft note of which every line's unit is known and every line
-- can be posted in turn.
use vrindavan.Base.{
  ◌<◌, subst, ℕ, ◌≡◌, refl, ap, ◌∙◌, true, Option, none, some, List, ◌∷◌, All, find_where, ◌==◌,
  inl, inr, Bool-cases, update_where,
}
use vrindavan.Exec.{Result, ok, err, pure, ◌>>=◌, ◌>>◌}
use vrindavan.Exec.Within.{Post}
use vrindavan.Db.{Db, Error, Clock, ProductUnitRow}
use vrindavan.Tables.{has_id}
use vrindavan.Stock.Frame.{OnlyStock}
use vrindavan.Inventory.Document.{lines_for, approval}
use vrindavan.Inventory.Document.Laws.{IsDocument, SameStock}
use vrindavan.Inventory.Document.Returns.{
  Returned, is_ok, Returned-continue, Returned-roll_back, Returned-weaken, approval-in_turn,
}
use vrindavan.Trade.Fulfilment.{
  Fulfils, base_quantity, fulfil_line, count_order_line, count_towards, lines_of_order, is_complete,
  is_begun, follow_order, refresh_order, fulfil,
}
use vrindavan.Trade.Fulfilment.Laws.{IsFulfils}

module _ {H L O M : Type 0} (f : Fulfils H L O M) where
  -- The unit of a line is in the table.
  abbrev pub Known : Db → L → Type 0
  Known s l = (u : ProductUnitRow) × find_where (λ u. u.id == f.unit_of l) s.product_units ≡ some u

  -- The quantity of a line in base units, as the column rounds it.
  abbrev moved_in : L → Option ProductUnitRow → ℕ
  moved_in l none = 0
  moved_in l (some u) = base_quantity (f.quantity_on l) u.conversion_factor

  -- What a line moves is not rounded to nothing.
  abbrev pub Moves : Db → L → Type 0
  Moves s l = 0 < moved_in l (find_where (λ u. u.id == f.unit_of l) s.product_units)

  pub Moves-in :
      (l : L) (u : ProductUnitRow) (s : Db)
      → find_where (λ u. u.id == f.unit_of l) s.product_units ≡ some u
      → Moves s l
      → 0 < base_quantity (f.quantity_on l) u.conversion_factor
  Moves-in l u s unit moves = subst (λ o. 0 < moved_in l o) unit moves

  -- Counting a line changes neither notes, units nor stock.
  pub record IsApart : Type 0 where
    pub headers-put :
        (xs : List M) (db : Db)
        → f.note.headers.rows (f.order_lines.put xs db) ≡ f.note.headers.rows db
    pub units-put :
        (xs : List M) (db : Db) → (f.order_lines.put xs db).product_units ≡ db.product_units
    pub stock-put : (xs : List M) (db : Db) → SameStock db (f.order_lines.put xs db)

  follow_order-Returned :
      (clock : Clock) (o : Option ℕ) (s : Db) → Returned (λ u. Unit) (follow_order f clock o s)
  unfolding refresh_order
  follow_order-Returned clock none s = (refl, tt)
  follow_order-Returned clock (some id) s =
      elim (Bool-cases (is_complete f (lines_of_order f id s))) [
        | inl whole ↦ rw whole (refl, tt)
        | inr partial ↦ elim (Bool-cases (is_begun f (lines_of_order f id s))) [
          | inl begun ↦ rw (partial, begun) (refl, tt)
          | inr fresh ↦ rw (partial, fresh) (refl, tt)
        ]
      ]

  module _ (clock : Clock) (J : List L → Db → Type 0) (s : Db) (laws : IsFulfils f)
      (document : IsDocument f.note) (apart : IsApart)
      (blind : (ls : List L) (t u : Db) → SameStock t u → J ls t → J ls u) where
    -- What is the same for all lines.
    abbrev Same : Db → Type 0
    Same t = (t.product_units ≡ s.product_units) × (f.note.headers.rows t ≡ f.note.headers.rows s)

    abbrev Going : List L → Db → Type 0
    Going ls t = (J ls t × Same t) × All (Known s) ls

    posted :
        (ls : List L) (t : Db) (r : Result Error (Unit {0}) × Db)
        → Returned (J ls) r
        → Post OnlyStock t r
        → Same t
        → Returned (λ u. J ls u × Same u) r
    posted ls t (ok a, u) g o same = (
      refl,
      (
        g.1,
        (
          ap (λ x. x.product_units) o ∙ same.0,
          ap f.note.headers.rows o ∙ document.rows-with_stock t u ∙ same.1,
        ),
      ),
    )
    posted ls t (err e, u) g o same = absurd (cc g.0)

    counted :
        (ls : List L) (l : L) (o : Option ℕ) (t : Db)
        → J ls t × Same t
        → Returned (λ u. J ls u × Same u) (count_order_line f l o t)
    counted ls l none t g = (refl, g)
    counted ls l (some id) t g =
        let xs =
          update_where (has_id f.order_lines id) (f.add (f.quantity_on l)) (f.order_lines.rows t) in
        (
          refl,
          (
            blind ls t _ (apart.stock-put xs t) g.0,
            (apart.units-put xs t ∙ g.1.0, apart.headers-put xs t ∙ g.1.1),
          ),
        )

    module _ (h : H)
        (posts : (l : L) (ls : List L) (u : ProductUnitRow) (t : Db)
          → find_where (λ u. u.id == f.unit_of l) s.product_units ≡ some u
          → J (l ∷ ls) t
          → Returned (J ls) (f.post clock h l u.conversion_factor t)) where
      fulfil_line-Returned :
          (l : L) (ls : List L) (t : Db)
          → Going (l ∷ ls) t
          → Returned (Going ls) (fulfil_line f clock h l t)
      unfolding fulfil_line
      fulfil_line-Returned l ls t ((j, same), ((u, known), rest)) =
          rw (ap (find_where (λ u. u.id == f.unit_of l)) same.0 ∙ known) (
            Returned-weaken (λ v. J ls v × Same v) (Going ls) _ (λ v g. (g, rest))
              (Returned-continue (λ v. J ls v × Same v) (λ v. J ls v × Same v)
                (f.post clock h l u.conversion_factor t) (λ _. count_towards f l)
                (posted ls t (f.post clock h l u.conversion_factor t) (posts l ls u t known j)
                  ((laws.posts clock h l u.conversion_factor).at t) same)
                (λ a v g. counted ls l (f.order_line_of l) v g)))

      pub fulfil-returns :
          (id : ℕ)
          → ((h : H) → f.note.headers.id_of (f.stamp clock h) ≡ f.note.headers.id_of h)
          → find_where (has_id f.note.headers id) (f.note.headers.rows s) ≡ some h
          → f.note.is_draft h ≡ true
          → All (Known s) (lines_for f.note id s)
          → J (lines_for f.note id s) s
          → is_ok (fulfil f clock id s).0 ≡ true
      unfolding fulfil
      fulfil-returns id stamp_id found draft known j =
          (Returned-roll_back (λ u. Unit) s
            ((approval f.note (fulfil_line f clock) (f.stamp clock) id >>= λ note.
                follow_order f clock (f.order_of note.header) >> pure note)
              s)
            (Returned-continue (λ u. Unit) (λ u. Unit)
              (approval f.note (fulfil_line f clock) (f.stamp clock) id s) _
              (approval-in_turn f.note document (fulfil_line f clock) (f.stamp clock) stamp_id Going
                id s h fulfil_line-Returned (λ t g. g.0.1.1) ((j, (refl, refl)), known) found draft)
              (λ note t g.
                Returned-continue (λ u. Unit) (λ u. Unit)
                  (follow_order f clock (f.order_of note.header) t) (λ _. pure note)
                  (follow_order-Returned clock (f.order_of note.header) t)
                  (λ a u k. (refl, tt))))).0
