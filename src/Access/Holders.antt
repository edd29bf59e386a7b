-- ===== src/Access/Holders.antt =====
-- Who holds the Admin role, before and after a user's row or roles are written
-- (backend/src/modules/access/infrastructure/access.kysely-repository.ts).
use vrindavan.Base.{
  ℕ, ◌≡◌, refl, ap, ◌⊎◌, inl, inr, String, Bool, true, false, not, ◌&&◌, ◌||◌, ◌==◌, ==_refl,
  Bool-cases, some, List, [], ◌∷◌, ◌++◌, map, any, length, select_where, find_where, delete_where,
  update_where, leb, arith,
}
use vrindavan.Access.{
  AccessDb, UserRow, RoleRow, UserRole, role_names, joined_names, user_has_role, distinct, grants,
  same_text,
}
use vrindavan.Access.Service.{admin_role}

abbrev pub is_active_admin : AccessDb → UserRow → Bool
is_active_admin db u = u.is_active && user_has_role u.id admin_role db

abbrev pub HasAdmin : AccessDb → Type 0
HasAdmin db = any (is_active_admin db) db.users ≡ true

-- One that is not the user of the id.
abbrev pub other : (UserRow → Bool) → ℕ → List UserRow → Bool
other p id = any (λ u. p u && not (u.id == id))

-- If all that are counted have one id, there is at most one.
add_same :
    (x id : ℕ) (xs : List ℕ)
    → x ≡ id
    → (distinct xs ≡ []) ⊎ (distinct xs ≡ id ∷ [])
    → (distinct (x ∷ xs) ≡ []) ⊎ (distinct (x ∷ xs) ≡ id ∷ [])
add_same x id xs same (inl none_yet) = inr (rw none_yet (ap (λ y. y ∷ []) same))
add_same x id xs same (inr one) = inr (rw (one, same, ==_refl id) refl)

one_distinct :
    (p : UserRow → Bool) (id : ℕ) (users : List UserRow)
    → other p id users ≡ false
    → (distinct (map (λ u. u.id) (select_where p users)) ≡ [])
      ⊎ (distinct (map (λ u. u.id) (select_where p users)) ≡ id ∷ [])
one_distinct p id [] h = inl refl
one_distinct p id (u ∷ users) h = elim (Bool-cases (p u)) [
  | inl counted ↦ rw counted (
      add_same u.id id (map (λ u. u.id) (select_where p users)) (ground arith)
        (one_distinct p id users (ground arith)))
  | inr skipped ↦ rw skipped (one_distinct p id users (ground arith))
]

pub counted-other :
    (p : UserRow → Bool) (id : ℕ) (users : List UserRow)
    → leb (length (distinct (map (λ u. u.id) (select_where p users)))) 1 ≡ false
    → other p id users ≡ true
counted-other p id users h = elim (Bool-cases (other p id users)) [
  | inl found ↦ found
  | inr alone ↦ elim (one_distinct p id users alone) [
    | inl no_one ↦ absurd (cc (h, ap (λ x. leb (length x) 1) no_one))
    | inr one ↦ absurd (cc (h, ap (λ x. leb (length x) 1) one))
  ]
]

-- One that the user of the id is not among.
pub absent-other :
    (p : UserRow → Bool) (id : ℕ) (users : List UserRow)
    → ((u : UserRow) → u.id ≡ id → p u ≡ false)
    → any p users ≡ true
    → other p id users ≡ true
absent-other p id [] a h = h
absent-other p id (u ∷ users) a h = ground (arith, a u, absent-other p id users a)

pub other-updated :
    (p : UserRow → Bool) (f : UserRow → UserRow) (id : ℕ) (users : List UserRow)
    → other p id users ≡ true
    → any p (update_where (λ u. u.id == id) f users) ≡ true
other-updated p f id [] h = h
other-updated p f id (u ∷ users) h = ground (arith, other-updated p f id users)

pub kept-updated :
    (p : UserRow → Bool) (f : UserRow → UserRow) (id : ℕ) (users : List UserRow)
    → ((u : UserRow) → p u ≡ true → p (f u) ≡ true)
    → any p users ≡ true
    → any p (update_where (λ u. u.id == id) f users) ≡ true
kept-updated p f id [] k h = h
kept-updated p f id (u ∷ users) k h = ground (arith, k u, kept-updated p f id users k)

pub any_mono :
    (p q : UserRow → Bool) (users : List UserRow)
    → ((u : UserRow) → p u ≡ true → q u ≡ true)
    → any p users ≡ true
    → any q users ≡ true
any_mono p q [] k h = h
any_mono p q (u ∷ users) k h = ground (arith, k u, any_mono p q users k)

abbrev pub named : String → Bool
named n = same_text n admin_role

-- Roles that another user holds do not change.
grants-other :
    (y id : ℕ) (roles : List RoleRow) (ids : List ℕ)
    → (id == y) ≡ false
    → joined_names y roles (grants id ids) ≡ []
grants-other y id roles [] h = refl
grants-other y id roles (k ∷ ids) h = rw (h, grants-other y id roles ids h) refl

pub joined-other :
    (y id : ℕ) (roles : List RoleRow) (xs : List UserRole) (ids : List ℕ)
    → (id == y) ≡ false
    → joined_names y roles (delete_where (λ x. x.user_id == id) xs ++ grants id ids)
      ≡ joined_names y roles xs
joined-other y id roles [] ids h = grants-other y id roles ids h
joined-other y id roles (x ∷ xs) ids h = ground (arith, joined-other y id roles xs ids h)

pub any-append :
    (p : String → Bool) (xs ys : List String) → any p (xs ++ ys) ≡ (any p xs || any p ys)
any-append p [] ys = refl
any-append p (x ∷ xs) ys = ground (arith, any-append p xs ys)

-- A user who is given the role holds it.
pub granted :
    (id role_id : ℕ) (roles : List RoleRow) (ids : List ℕ)
    → any (λ k. k == role_id) ids ≡ true
    → any named (role_names role_id roles) ≡ true
    → any named (joined_names id roles (grants id ids)) ≡ true
granted id role_id roles [] h r = absurd (cc h)
granted id role_id roles (k ∷ ids) h r = ground (
  arith,
  ==_refl id,
  any-append named (role_names k roles) (joined_names id roles (grants id ids)),
  granted id role_id roles ids,
)

pub joined-granted :
    (id : ℕ) (roles : List RoleRow) (xs : List UserRole) (ids : List ℕ)
    → any named (joined_names id roles (grants id ids)) ≡ true
    → any named (joined_names id roles (delete_where (λ x. x.user_id == id) xs ++ grants id ids))
      ≡ true
joined-granted id roles [] ids h = h
joined-granted id roles (x ∷ xs) ids h = ground (arith, joined-granted id roles xs ids h)

pub find-any :
    (p q : RoleRow → Bool) (xs : List RoleRow) {x : RoleRow}
    → find_where p xs ≡ some x
    → q x ≡ true
    → any q xs ≡ true
find-any p q [] h t = absurd (cc h)
find-any p q (y ∷ ys) {x} h t = ground (arith, find-any p q ys {x = x})

pub role_names-any :
    (role_id : ℕ) (roles : List RoleRow)
    → any (λ r. r.id == role_id && named r.name) roles ≡ true
    → any named (role_names role_id roles) ≡ true
role_names-any role_id [] h = absurd (cc h)
role_names-any role_id (r ∷ roles) h = ground (arith, role_names-any role_id roles)
