-- ===== src/Tables/Ids.antt =====
-- The primary key of a table: rows under distinct ids, and the row that is found under one after a
-- statement wrote the table.
use vrindavan.Base.{
  ℕ, suc, ◌<◌, ◌≡◌, ◌≤◌, arith, Bool, true, false, ◌&&◌, Option, none, some, List, [], ◌∷◌, ◌++◌,
  All, find_where, update_where, delete_where, ◌==◌, ==→eq, inl, inr, Bool-cases, subst,
}

module _ {R : Type 0} (key : R → ℕ) where
  abbrev pub IsAbsent : ℕ → List R → Type 0
  IsAbsent k = All (λ r. (key r == k) ≡ false)

  abbrev pub IsUnique : List R → Type 0
  IsUnique [] = Unit
  IsUnique (r ∷ rs) = IsAbsent (key r) rs × IsUnique rs

  -- Distinct ids, all below the next one that is drawn.
  pub record IsNumbered (n : ℕ) (rs : List R) : Type 0 where
    pub below : All (λ r. key r < n) rs
    pub unique : IsUnique rs

  abbrev pub found : ℕ → List R → Option R
  found k = find_where (λ r. key r == k)

  found_absent : (k : ℕ) (rs : List R) → IsAbsent k rs → found k rs ≡ none
  found_absent k [] h = ground arith
  found_absent k (r ∷ rs) h = ground (arith, found_absent k rs h.1)

  below-weaken : (n m : ℕ) (rs : List R) → n ≤ m → All (λ r. key r < n) rs → All (λ r. key r < m) rs
  below-weaken n m [] l h = tt
  below-weaken n m (r ∷ rs) l h = (omega (arith, h.0), below-weaken n m rs l h.1)

  pub IsNumbered-weaken : (n m : ℕ) (rs : List R) → n ≤ m → IsNumbered n rs → IsNumbered m rs
  IsNumbered-weaken n m rs l h = record { below = below-weaken n m rs l h.below; unique = h.unique }

  -- A row that is inserted under the next id.
  module _ (n : ℕ) (r : R) (new : key r ≡ n) where
    below-append : (rs : List R) → All (λ r. key r < n) rs → All (λ r. key r < suc n) (rs ++ r ∷ [])
    below-append [] h = (omega (arith, new), tt)
    below-append (x ∷ rs) h = (omega (arith, h.0), below-append rs h.1)

    IsAbsent-append : (k : ℕ) (rs : List R) → k < n → IsAbsent k rs → IsAbsent k (rs ++ r ∷ [])
    IsAbsent-append k [] l h = ground (arith, new)
    IsAbsent-append k (x ∷ rs) l h = (h.0, IsAbsent-append k rs l h.1)

    IsUnique-append :
        (rs : List R) → All (λ r. key r < n) rs → IsUnique rs → IsUnique (rs ++ r ∷ [])
    IsUnique-append [] l h = (tt, tt)
    IsUnique-append (x ∷ rs) l h = (IsAbsent-append (key x) rs l.0 h.0, IsUnique-append rs l.1 h.1)

    pub IsNumbered-append : (rs : List R) → IsNumbered n rs → IsNumbered (suc n) (rs ++ r ∷ [])
    IsNumbered-append rs h = record {
      below = below-append rs h.below;
      unique = IsUnique-append rs h.below h.unique;
    }

    pub found-append : (k : ℕ) (rs : List R) → k < n → found k (rs ++ r ∷ []) ≡ found k rs
    found-append k [] l = ground (arith, new)
    found-append k (x ∷ rs) l = ground (arith, found-append k rs l)

  -- The row of an id is written.
  module _ (id : ℕ) (f : R → R) (same : (r : R) → key (f r) ≡ key r) where
    below-update :
        (n : ℕ) (rs : List R)
        → All (λ r. key r < n) rs
        → All (λ r. key r < n) (update_where (λ r. key r == id) f rs)
    below-update n [] h = tt
    below-update n (r ∷ rs) h = ground (arith, same r, below-update n rs h.1)

    IsAbsent-update :
        (k : ℕ) (rs : List R) → IsAbsent k rs → IsAbsent k (update_where (λ r. key r == id) f rs)
    IsAbsent-update k [] h = tt
    IsAbsent-update k (r ∷ rs) h = ground (arith, same r, IsAbsent-update k rs h.1)

    IsUnique-update : (rs : List R) → IsUnique rs → IsUnique (update_where (λ r. key r == id) f rs)
    IsUnique-update [] h = tt
    IsUnique-update (r ∷ rs) h =
        ground (arith, same r, IsAbsent-update (key r) rs h.0, IsUnique-update rs h.1)

    pub IsNumbered-update :
        (n : ℕ) (rs : List R)
        → IsNumbered n rs
        → IsNumbered n (update_where (λ r. key r == id) f rs)
    IsNumbered-update n rs h = record {
      below = below-update n rs h.below;
      unique = IsUnique-update rs h.unique;
    }

    pub found-update :
        (rs : List R) {r : R}
        → found id rs ≡ some r
        → found id (update_where (λ r. key r == id) f rs) ≡ some (f r)
    found-update [] h = cc
    found-update (x ∷ rs) {r} h = ground (arith, same x, found-update rs {r = r})

    pub found-update_other :
        (k : ℕ) (rs : List R)
        → (k == id) ≡ false
        → found k (update_where (λ r. key r == id) f rs) ≡ found k rs
    found-update_other k [] e = ground arith
    found-update_other k (x ∷ rs) e = ground (arith, same x, found-update_other k rs e)

  -- Rows of an id are deleted where they pass a test.
  module _ (id : ℕ) (p : R → Bool) where
    all-delete :
        (P : R → Type 0) (rs : List R)
        → All P rs
        → All P (delete_where (λ r. key r == id && p r) rs)
    all-delete P [] h = tt
    all-delete P (r ∷ rs) h = ground (arith, all-delete P rs h.1)

    IsUnique-delete :
        (rs : List R) → IsUnique rs → IsUnique (delete_where (λ r. key r == id && p r) rs)
    IsUnique-delete [] h = tt
    IsUnique-delete (r ∷ rs) h =
        ground (arith, all-delete (λ s. (key s == key r) ≡ false) rs h.0, IsUnique-delete rs h.1)

    pub IsNumbered-delete :
        (n : ℕ) (rs : List R)
        → IsNumbered n rs
        → IsNumbered n (delete_where (λ r. key r == id && p r) rs)
    IsNumbered-delete n rs h = record {
      below = all-delete (λ r. key r < n) rs h.below;
      unique = IsUnique-delete rs h.unique;
    }

    pub found-delete :
        (rs : List R) {r : R}
        → IsUnique rs
        → found id rs ≡ some r
        → p r ≡ true
        → found id (delete_where (λ r. key r == id && p r) rs) ≡ none
    found-delete [] u h t = ground arith
    found-delete (x ∷ rs) {r} u h t = elim (Bool-cases (key x == id)) [
      | inl this ↦
          let absent = subst (λ k. IsAbsent k rs) (==→eq (key x) id this) u.0 in
          ground (
            arith,
            found_absent id (delete_where (λ r. key r == id && p r) rs)
                (all-delete (λ s. (key s == id) ≡ false) rs absent),
          )
      | inr other ↦ ground (arith, found-delete rs {r = r} u.1)
    ]

    pub found-delete_other :
        (k : ℕ) (rs : List R)
        → (k == id) ≡ false
        → found k (delete_where (λ r. key r == id && p r) rs) ≡ found k rs
    found-delete_other k [] e = ground arith
    found-delete_other k (x ∷ rs) e = ground (arith, found-delete_other k rs e)

    pub found-delete_none :
        (rs : List R)
        → found id rs ≡ none
        → found id (delete_where (λ r. key r == id && p r) rs) ≡ none
    found-delete_none [] h = h
    found-delete_none (x ∷ rs) h = ground (arith, found-delete_none rs)

    pub found-delete_kept :
        (rs : List R) {r : R}
        → found id rs ≡ some r
        → p r ≡ false
        → found id (delete_where (λ r. key r == id && p r) rs) ≡ some r
    found-delete_kept [] h t = cc
    found-delete_kept (x ∷ rs) {r} h t = ground (arith, found-delete_kept rs {r = r})
