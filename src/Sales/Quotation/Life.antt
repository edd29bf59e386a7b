-- ===== src/Sales/Quotation/Life.antt =====
-- The life of a quotation as a state machine, and what one statement of the repository does to it.
use vrindavan.Base.{
  ℕ, suc, ◌<◌, ◌≤◌, ◌≡◌, refl, ◌∙◌, sym, subst, arith, true, ◌&&◌, Option, none, some, List, [],
  ◌∷◌, ◌++◌, ◌==◌, ==→eq, inl, inr, Bool-cases, update_where, delete_where,
}
use vrindavan.Exec.Within.{IsPreorder}
use vrindavan.Db.{Db, Clock, QuotationRow, QuotationStatus}
use vrindavan.Tables.Ids.{
  IsNumbered, IsUnique, found, IsNumbered-weaken, IsNumbered-append, IsNumbered-update,
  IsNumbered-delete, found-append, found-update, found-update_other, found-delete,
  found-delete_other, found-delete_kept, found-delete_none,
}
use vrindavan.Sales.Quotation.{set_status, status_code, in_status}

-- One change of a quotation that is there (`some` of its status) or is not.
pub data Moves : Option QuotationStatus → Option QuotationStatus → Type 0 where
  sends : Moves (some QuotationStatus.draft) (some QuotationStatus.sent)
  accepts : Moves (some QuotationStatus.sent) (some QuotationStatus.accepted)
  rejects : Moves (some QuotationStatus.sent) (some QuotationStatus.rejected)
  converts : Moves (some QuotationStatus.accepted) (some QuotationStatus.converted)
  deletes : Moves (some QuotationStatus.draft) none

pub data Reaches : Option QuotationStatus → Option QuotationStatus → Type 0 where
  stays : (x : Option QuotationStatus) → Reaches x x
  goes : {x y z : Option QuotationStatus} → Moves x y → Reaches y z → Reaches x z

pub Reaches-trans : {x y z : Option QuotationStatus} → Reaches x y → Reaches y z → Reaches x z
Reaches-trans (stays x) g = g
Reaches-trans (goes m f) g = goes m (Reaches-trans f g)

abbrev pub status_of : Option QuotationRow → Option QuotationStatus
status_of none = none
status_of (some q) = some q.status

abbrev pub id_of : QuotationRow → ℕ
id_of q = q.id

abbrev pub status_at : ℕ → Db → Option QuotationStatus
status_at id s = status_of (found id_of id s.sales.quotations)

abbrev pub Numbered : Db → Type 0
Numbered s = IsNumbered id_of s.next_id s.sales.quotations

-- From rows `rs` and the next id `n`: ids stay distinct, and every quotation under an id that was
-- drawn before has gone by moves.
abbrev pub LivesIn : ℕ → List QuotationRow → ℕ → List QuotationRow → Type 0
LivesIn n rs m rs' =
    IsNumbered id_of n rs
    → (n ≤ m)
      × IsNumbered id_of m rs'
      × ((id : ℕ)
          → id < n
          → Reaches (status_of (found id_of id rs)) (status_of (found id_of id rs')))

abbrev pub Lives : Db → Db → Type 0
Lives s t = LivesIn s.next_id s.sales.quotations t.next_id t.sales.quotations

pub Lives-preorder : IsPreorder Lives
Lives-preorder = record {
  rfl = λ s n. (omega arith, n, λ id below. stays (status_at id s));
  trans = λ s t u f g n.
      let a = f n in
      let b = g a.1 in
      (
        omega (arith, a.0, b.0),
        b.1,
        λ id below. Reaches-trans (a.2 id below) (b.2 id (omega (arith, below, a.0))),
      );
}

-- The quotations are as they were.
abbrev pub Elsewhere : Db → Db → Type 0
Elsewhere s t = (t.sales.quotations ≡ s.sales.quotations) × (s.next_id ≤ t.next_id)

pub Elsewhere-preorder : IsPreorder Elsewhere
Elsewhere-preorder = record {
  rfl = λ s. (refl, omega arith);
  trans = λ s t u f g. (g.0 ∙ f.0, omega (arith, f.1, g.1));
}

pub Lives-Elsewhere : (s t : Db) → Elsewhere s t → Lives s t
Lives-Elsewhere s t (e, l) =
    subst (λ rs. LivesIn s.next_id s.sales.quotations t.next_id rs) (sym e)
      (λ n. (
        l,
        IsNumbered-weaken id_of s.next_id t.next_id s.sales.quotations l n,
        λ id below. stays (status_at id s),
      ))

pub new-LivesIn :
    (q : QuotationRow) (n : ℕ) (rs : List QuotationRow)
    → q.id ≡ n
    → LivesIn n rs (suc n) (rs ++ q ∷ [])
new-LivesIn q n rs e h = (
  omega arith,
  IsNumbered-append id_of n q e rs h,
  λ id below. rw (found-append id_of n q e id rs below) (stays (status_of (found id_of id rs))),
)

-- A quotation is written with another status.
pub set-LivesIn :
    (clock : Clock) (id : ℕ) (q : QuotationRow) (status : QuotationStatus) (n : ℕ)
    (rs : List QuotationRow)
    → found id_of id rs ≡ some q
    → Moves (some q.status) (some status)
    → LivesIn n rs n (update_where (λ r. r.id == id) (set_status clock status) rs)
unfolding set_status
set-LivesIn clock id q status n rs there move h = (
  omega arith,
  IsNumbered-update id_of id (set_status clock status) (λ r. refl) n rs h,
  λ k below. elim (Bool-cases (k == id)) [
    | inl this ↦
        rw
          (
            ==→eq k id this,
            there,
            found-update id_of id (set_status clock status) (λ r. refl) rs there,
          )
          (goes move (stays (some status)))
    | inr other ↦
        rw (found-update_other id_of id (set_status clock status) (λ r. refl) k rs other)
          (stays (status_of (found id_of k rs)))
  ],
)

-- The tests of a status are equations.
pub status_code-injective :
    (x y : QuotationStatus) → (status_code x == status_code y) ≡ true → x ≡ y
status_code-injective QuotationStatus.draft QuotationStatus.draft e = refl
status_code-injective QuotationStatus.sent QuotationStatus.sent e = refl
status_code-injective QuotationStatus.accepted QuotationStatus.accepted e = refl
status_code-injective QuotationStatus.rejected QuotationStatus.rejected e = refl
status_code-injective QuotationStatus.expired QuotationStatus.expired e = refl
status_code-injective QuotationStatus.converted QuotationStatus.converted e = refl
status_code-injective x y e = cc

deleted-Reaches :
    (id : ℕ) (rs : List QuotationRow) (o : Option QuotationRow)
    → IsUnique id_of rs
    → found id_of id rs ≡ o
    → Reaches (status_of o) (
        status_of
          (found id_of id (delete_where (λ r. r.id == id && in_status QuotationStatus.draft r) rs)))
deleted-Reaches id rs none u there =
    rw (found-delete_none id_of id (in_status QuotationStatus.draft) rs there) (stays none)
deleted-Reaches id rs (some q) u there = elim (Bool-cases (in_status QuotationStatus.draft q)) [
  | inl draft ↦
      rw
        (
          found-delete id_of id (in_status QuotationStatus.draft) rs u there draft,
          status_code-injective q.status QuotationStatus.draft draft,
        )
        (goes deletes (stays none))
  | inr kept ↦
      rw (found-delete_kept id_of id (in_status QuotationStatus.draft) rs there kept)
        (stays (some q.status))
]

pub deleted-LivesIn :
    (id n : ℕ) (rs : List QuotationRow)
    → LivesIn n rs n (delete_where (λ r. r.id == id && in_status QuotationStatus.draft r) rs)
deleted-LivesIn id n rs h = (
  omega arith,
  IsNumbered-delete id_of id (in_status QuotationStatus.draft) n rs h,
  λ k below. elim (Bool-cases (k == id)) [
    | inl this ↦
        subst
          (λ k. Reaches (status_of (found id_of k rs)) (
            status_of (
              found id_of k
                (delete_where (λ r. r.id == id && in_status QuotationStatus.draft r) rs))))
          (sym (==→eq k id this)) (deleted-Reaches id rs (found id_of id rs) h.unique refl)
    | inr other ↦
        rw (found-delete_other id_of id (in_status QuotationStatus.draft) k rs other)
          (stays (status_of (found id_of k rs)))
  ],
)
