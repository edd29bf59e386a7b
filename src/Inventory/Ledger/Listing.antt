-- ===== src/Inventory/Ledger/Listing.antt =====
-- What the listing of the stock ledger answers: `findLedger` of
-- backend/src/modules/inventory/infrastructure/stock-ledger.kysely-repository.ts.
use mathlib.Core.List.{Perm}
use mathlib.Core.List.Perm
use vrindavan.Base.{
  ℕ, zero, suc, ◌≤◌, ◌≡◌, refl, sym, subst, ◌∙◌, ap, Bool, not, ◌&&◌, ◌||◌, ◌==◌, Option, none,
  some, List, [], ◌∷◌, ◌++◌, leb, arith, All, length, select_where, order_by_desc, insert_desc,
  get_or, if◌then◌else◌, Bool-cases, inl, inr,
}
use vrindavan.Exec.{ok}
use vrindavan.Db.{Db, LedgerRow}
use vrindavan.Inventory.Ledger.{
  StockLedgerFilters, min, max, row_limit, fits, fits_filters, first_rows, find_ledger,
}

module _ {R : Type 0} where
  All-first_rows : (P : R → Type 0) (n : ℕ) (xs : List R) → All P xs → All P (first_rows n xs)
  All-first_rows P zero xs h = tt
  All-first_rows P (suc n) [] h = tt
  All-first_rows P (suc n) (x ∷ xs) h = (h.0, All-first_rows P n xs h.1)

  All-insert_desc :
      (P : R → Type 0) (key : R → ℕ) (x : R) (xs : List R)
      → P x
      → All P xs
      → All P (insert_desc key x xs)
  All-insert_desc P key x [] p h = (p, tt)
  All-insert_desc P key x (y ∷ ys) p h = ground (arith, All-insert_desc P key x ys p h.1)

  -- Each row's key is at least those of all rows after it.
  abbrev pub IsDescending : (R → ℕ) → List R → Type 0
  IsDescending key [] = Unit
  IsDescending key (x ∷ xs) = All (λ y. key y ≤ key x) xs × IsDescending key xs

  All-weaken :
      (key : R → ℕ) (m n : ℕ) (xs : List R)
      → m ≤ n
      → All (λ y. key y ≤ m) xs
      → All (λ y. key y ≤ n) xs
  All-weaken key m n [] le h = tt
  All-weaken key m n (x ∷ xs) le h = (omega (arith, h.0), All-weaken key m n xs le h.1)

  insert_desc-IsDescending :
      (key : R → ℕ) (x : R) (xs : List R)
      → IsDescending key xs
      → IsDescending key (insert_desc key x xs)
  insert_desc-IsDescending key x [] h = (tt, tt)
  insert_desc-IsDescending key x (y ∷ ys) h =
      let weakened = All-weaken key (key y) (key x) ys in
      let below = All-insert_desc (λ z. key z ≤ key y) key x ys in
      let rest = insert_desc-IsDescending key x ys h.1 in ground arith

  first_rows-IsDescending :
      (key : R → ℕ) (n : ℕ) (xs : List R) → IsDescending key xs → IsDescending key (first_rows n xs)
  first_rows-IsDescending key zero xs h = tt
  first_rows-IsDescending key (suc n) [] h = tt
  first_rows-IsDescending key (suc n) (x ∷ xs) h =
      (All-first_rows _ n xs h.0, first_rows-IsDescending key n xs h.1)

  length-insert_desc :
      (key : R → ℕ) (x : R) (xs : List R) → length (insert_desc key x xs) ≡ suc (length xs)
  length-insert_desc key x [] = omega arith
  length-insert_desc key x (y ∷ ys) = ground (arith, length-insert_desc key x ys)

  length-order_by_desc : (key : R → ℕ) (xs : List R) → length (order_by_desc key xs) ≡ length xs
  length-order_by_desc key [] = omega arith
  length-order_by_desc key (x ∷ xs) =
      omega (arith, length-insert_desc key x (order_by_desc key xs), length-order_by_desc key xs)

  order_by_desc-IsDescending : (key : R → ℕ) (xs : List R) → IsDescending key (order_by_desc key xs)
  order_by_desc-IsDescending key [] = tt
  order_by_desc-IsDescending key (x ∷ xs) =
      insert_desc-IsDescending key x (order_by_desc key xs) (order_by_desc-IsDescending key xs)

  -- As many rows as there are, up to the limit.
  length-first_rows : (n : ℕ) (xs : List R) → length (first_rows n xs) ≡ min n (length xs)
  length-first_rows zero xs = ground arith
  length-first_rows (suc n) [] = ground arith
  length-first_rows (suc n) (x ∷ xs) = ground (arith, length-first_rows n xs)

  -- The rows past the limit.
  abbrev rows_after : ℕ → List R → List R
  rows_after zero xs = xs
  rows_after (suc n) [] = []
  rows_after (suc n) (x ∷ xs) = rows_after n xs

  first_rows-append : (n : ℕ) (xs : List R) → first_rows n xs ++ rows_after n xs ≡ xs
  first_rows-append zero xs = refl
  first_rows-append (suc n) [] = refl
  first_rows-append (suc n) (x ∷ xs) = ap (λ ys. x ∷ ys) (first_rows-append n xs)

  All-rows_after : (P : R → Type 0) (n : ℕ) (xs : List R) → All P xs → All P (rows_after n xs)
  All-rows_after P zero xs h = h
  All-rows_after P (suc n) [] h = tt
  All-rows_after P (suc n) (x ∷ xs) h = All-rows_after P n xs h.1

  -- No row past the limit has a greater key than a row within it.
  rows_after-below :
      (key : R → ℕ) (n : ℕ) (xs : List R)
      → IsDescending key xs
      → All (λ x. All (λ y. key y ≤ key x) (rows_after n xs)) (first_rows n xs)
  rows_after-below key zero xs h = tt
  rows_after-below key (suc n) [] h = tt
  rows_after-below key (suc n) (x ∷ xs) h =
      (All-rows_after _ n xs h.0, rows_after-below key n xs h.1)

  insert_desc-perm : (key : R → ℕ) (x : R) (xs : List R) → Perm (insert_desc key x xs) (x ∷ xs)
  insert_desc-perm key x [] = Perm.refl (x ∷ [])
  insert_desc-perm key x (y ∷ ys) =
      let rest = insert_desc-perm key x ys in
      elim (Bool-cases (leb (key y) (key x))) [
        | inl above ↦ rw above (Perm.refl (x ∷ y ∷ ys))
        | inr below ↦ rw below (Perm.trans (Perm.cons y rest) (Perm.swap x y ys))
      ]

  order_by_desc-perm : (key : R → ℕ) (xs : List R) → Perm (order_by_desc key xs) xs
  order_by_desc-perm key [] = Perm.refl []
  order_by_desc-perm key (x ∷ xs) =
      Perm.trans (insert_desc-perm key x (order_by_desc key xs))
        (Perm.cons x (order_by_desc-perm key xs))

-- The rows that were asked for: of the product, if one is named, and of the warehouse, if one is.
abbrev pub is_other : Option ℕ → ℕ → Bool
is_other none x = Bool.false
is_other (some y) x = not (x == y)

abbrev pub is_asked : StockLedgerFilters → LedgerRow → Bool
is_asked filters e =
    not (is_other filters.product_id e.product_id || is_other filters.warehouse_id e.warehouse_id)

fits-asked :
    (product warehouse : Option ℕ) (x y : ℕ)
    → fits product x && fits warehouse y ≡ not (is_other product x || is_other warehouse y)
fits-asked none none x y = refl
fits-asked none (some w) x y = ground arith
fits-asked (some p) none x y = ground arith
fits-asked (some p) (some w) x y = ground arith

asked_lem :
    (filters : StockLedgerFilters) (es : List LedgerRow)
    → select_where (fits_filters filters) es ≡ select_where (is_asked filters) es
unfolding fits_filters
asked_lem filters [] = refl
asked_lem filters (e ∷ es) =
    rw
      (
        fits-asked filters.product_id filters.warehouse_id e.product_id e.warehouse_id,
        asked_lem filters es,
      )
      refl

-- 100 where no limit is given, at least 1, and at most 500.
abbrev pub capped : Option ℕ → ℕ
capped none = 100
capped (some zero) = 1
capped (some (suc n)) = if leb n 499 then suc n else 500

capped_lem : (filters : StockLedgerFilters) → row_limit filters ≡ capped filters.limit
unfolding row_limit
capped_lem filters = capped_at filters.limit
  where
    capped_at : (limit : Option ℕ) → min (max (get_or limit 100) 1) 500 ≡ capped limit
    capped_at none = refl
    capped_at (some zero) = refl
    capped_at (some (suc n)) = ground arith

-- The rows that a listing answers, with the rows that it leaves out: together they are the rows of
-- the ledger that were asked for, each as often as it is there; the newest come first, none left
-- out is newer than one listed, and none is left out below the limit.
pub record IsListing (filters : StockLedgerFilters) (db : Db) (rows : List LedgerRow) : Type 0 where
  pub left_out : List LedgerRow
  pub of_ledger : Perm (rows ++ left_out) (select_where (is_asked filters) db.stock_ledger)
  pub descending : IsDescending (λ e. e.created_at) rows
  pub newest : All (λ e. All (λ o. o.created_at ≤ e.created_at) left_out) rows
  pub counted :
      length rows
      ≡ min (capped filters.limit) (length (select_where (is_asked filters) db.stock_ledger))

-- The listing of the ledger always answers, and leaves the database as it was. Its rows are rows of
-- the ledger that were asked for, by product and by warehouse, each as often as it is there, the
-- newest first; none that it leaves out is newer than one that it lists. There are as many as the
-- ledger has of them, up to the limit asked for, or 100 without one, at least 1 and at most 500.
pub find_ledger-lists :
    (filters : StockLedgerFilters) (db : Db)
    → (rows : List LedgerRow) × find_ledger filters db ≡ (ok rows, db) × IsListing filters db rows
unfolding find_ledger
find_ledger-lists filters db =
    let all = select_where (fits_filters filters) db.stock_ledger in
    let sorted = order_by_desc (λ e. e.created_at) all in
    let n = row_limit filters in
    let descending = order_by_desc-IsDescending (λ e. e.created_at) all in
    (
      first_rows n sorted,
      refl,
      record {
        left_out = rows_after n sorted;
        of_ledger =
            subst (λ es. Perm es (select_where (is_asked filters) db.stock_ledger))
              (sym (first_rows-append n sorted))
              (subst (Perm sorted) (asked_lem filters db.stock_ledger)
                (order_by_desc-perm (λ e. e.created_at) all));
        descending = first_rows-IsDescending _ n sorted descending;
        newest = rows_after-below (λ e. e.created_at) n sorted descending;
        counted =
            length-first_rows n sorted
            ∙ ap (min n) (length-order_by_desc _ all)
            ∙ ap (λ k. min k (length all)) (capped_lem filters)
            ∙ ap (λ es. min (capped filters.limit) (length es)) (asked_lem filters db.stock_ledger);
      },
    )
