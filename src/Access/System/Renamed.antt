-- ===== src/Access/System/Renamed.antt =====
-- Changing and deleting roles leaves a tenant governed (`updateRole`, `deleteRole` and
-- `setRolePermissions` of access.service.ts): a built-in role keeps its name, and no other takes the
-- Admin's.
use text.Mathlib.TextEquality.{eq_iff}
use vrindavan.Base.{
  ℕ, ◌≡◌, refl, sym, subst, Bool, true, false, not, ◌&&◌, ◌==◌, ==→eq, some, List, [], ◌∷◌, all,
  any, arith, inl, inr, Bool-cases, Option-cases, find_where, update_where,
}
use vrindavan.Tables.Ids.{IsNumbered-update, IsAbsent, IsUnique}
use vrindavan.Access.{AccessDb, RoleRow, role_names, same_text}
use vrindavan.Access.Service.{admin_role}
use vrindavan.Access.Roles.{UpdateRoleProps, changed_role, name_taken, renames, to_role}
use vrindavan.Access.Holders.{named}
use vrindavan.Access.System.Kept.{IsGoverned, is_sound}
use vrindavan.Access.System.Created.{admin-named, any-text, roles-HasAdmin}

abbrev id_of : RoleRow → ℕ
id_of r = r.id

update_absent :
    (id : ℕ) (f : RoleRow → RoleRow) (roles : List RoleRow)
    → IsAbsent id_of id roles
    → update_where (λ r. r.id == id) f roles ≡ roles
update_absent id f [] a = refl
update_absent id f (r ∷ roles) a = ground (arith, update_absent id f roles a.1)

all-found :
    (p : RoleRow → Bool) (id : ℕ) (roles : List RoleRow) {row : RoleRow}
    → find_where (λ r. r.id == id) roles ≡ some row
    → all p roles ≡ true
    → p row ≡ true
all-found p id [] h a = absurd (cc h)
all-found p id (r ∷ roles) {row} h a = ground (arith, all-found p id roles {row = row})

some_found :
    (id : ℕ) (roles : List RoleRow) {row : RoleRow}
    → find_where (λ r. r.id == id) roles ≡ some row
    → any (λ r. r.id == id) roles ≡ true
some_found id [] h = absurd (cc h)
some_found id (r ∷ roles) {row} h = ground (arith, some_found id roles {row = row})

-- What the one row of an id decides.
module _ (id : ℕ) (row : RoleRow) where
  IsUnique-IsAbsent :
      (r : RoleRow) (roles : List RoleRow)
      → (r.id == id) ≡ true
      → IsUnique id_of (r ∷ roles)
      → IsAbsent id_of id roles
  IsUnique-IsAbsent r roles e u = subst (λ k. IsAbsent id_of k roles) (==→eq r.id id e) u.0

  all-update :
      (p : RoleRow → Bool) (f : RoleRow → RoleRow) (roles : List RoleRow)
      → IsUnique id_of roles
      → find_where (λ r. r.id == id) roles ≡ some row
      → all p roles ≡ true
      → p (f row) ≡ true
      → all p (update_where (λ r. r.id == id) f roles) ≡ true
  all-update p f [] u h a k = a
  all-update p f (r ∷ roles) u h a k = elim (Bool-cases (r.id == id)) [
    | inl this ↦ ground (arith, update_absent id f roles (IsUnique-IsAbsent r roles this u))
    | inr other ↦ ground (arith, all-update p f roles u.1)
  ]

  names-update :
      (k : ℕ) (f : RoleRow → RoleRow) (roles : List RoleRow)
      → ((r : RoleRow) → (f r).id ≡ r.id)
      → IsUnique id_of roles
      → find_where (λ r. r.id == id) roles ≡ some row
      → (named row.name ≡ true → named (f row).name ≡ true)
      → any named (role_names k roles) ≡ true
      → any named (role_names k (update_where (λ r. r.id == id) f roles)) ≡ true
  names-update k f [] same u h keep a = a
  names-update k f (r ∷ roles) same u h keep a = elim (Bool-cases (r.id == id)) [
    | inl this ↦
        ground (arith, same r, keep, update_absent id f roles (IsUnique-IsAbsent r roles this u))
    | inr other ↦ ground (arith, names-update k f roles same u.1)
  ]

  any_other :
      (p : RoleRow → Bool) (roles : List RoleRow)
      → IsUnique id_of roles
      → find_where (λ r. r.id == id) roles ≡ some row
      → p row ≡ false
      → any p roles ≡ true
      → any (λ r. not (r.id == id) && p r) roles ≡ true
  any_other p [] u h k a = a
  any_other p (r ∷ roles) u h k a = elim (Bool-cases (r.id == id)) [
    | inl this ↦ ground (arith, absent_any p roles (IsUnique-IsAbsent r roles this u))
    | inr other ↦ ground (arith, any_other p roles u.1)
  ]
    where
      absent_any :
          (p : RoleRow → Bool) (roles : List RoleRow)
          → IsAbsent id_of id roles
          → any p roles ≡ true
          → any (λ r. not (r.id == id) && p r) roles ≡ true
      absent_any p [] a h = h
      absent_any p (r ∷ roles) a h = ground (arith, absent_any p roles a.1)

-- The row of a built-in role keeps its name, and one that is not built in is not the Admin's.
module _ (props : UpdateRoleProps) (id count : ℕ) (row : RoleRow) (s : AccessDb) (g : IsGoverned s)
    (there : find_where (λ r. r.id == id) s.roles ≡ some row)
    (allowed : (row.is_system_role && renames props (to_role row count)) ≡ false) where
  row_sound : is_sound row ≡ true
  row_sound = all-found is_sound id s.roles there g.built_in

  keeps_name : named row.name ≡ true → named (changed_role props row).name ≡ true
  keeps_name h = elim (Option-cases props.name) [
    | inl same ↦ rw same h
    | inr (name, new) ↦ elim (Bool-cases (same_text name row.name)) [
      | inl same ↦ rw (new, (eq_iff name row.name).0 same) h
      | inr different ↦ ground (arith, row_sound)
    ]
  ]

  -- A role that is not built in does not take the Admin's name, which the Admin role has.
  sound_changed :
      name_taken props.name id s.roles ≡ false → is_sound (changed_role props row) ≡ true
  sound_changed free = elim (Bool-cases row.is_system_role) [
    | inl built_in ↦ ground arith
    | inr custom ↦ elim (Option-cases props.name) [
      | inl same ↦ rw same (ground (arith, row_sound))
      | inr (name, new) ↦ elim (Bool-cases (named name)) [
        | inr other ↦ rw (new, other) refl
        | inl admins ↦
            let own : same_text row.name name ≡ false =
              subst (λ n. same_text row.name n ≡ false) (sym ((eq_iff name admin_role).0 admins))
                (ground (arith, row_sound)) in
            let held = any-text name s.roles admins (admin-named s g.admin) in
            ground (
              arith,
              any_other id row (λ r. same_text r.name name) s.roles g.roles.unique there own held,
              some_found id s.roles there,
            )
      ]
    ]
  ]

  pub changed-IsGoverned :
      name_taken props.name id s.roles ≡ false
      → IsGoverned
          (record s { roles = update_where (λ r. r.id == id) (changed_role props) s.roles })
  changed-IsGoverned free = record {
    admin =
        roles-HasAdmin s (update_where (λ r. r.id == id) (changed_role props) s.roles) s.next_id
          (λ k.
            names-update id row k (changed_role props) s.roles (λ r. refl) g.roles.unique there
              keeps_name)
          g.admin;
    roles = IsNumbered-update id_of id (changed_role props) (λ r. refl) s.next_id s.roles g.roles;
    built_in =
        all-update id row is_sound (changed_role props) s.roles g.roles.unique there g.built_in
          (sound_changed free);
    users = g.users;
  }
