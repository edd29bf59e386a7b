-- ===== src/Access/Roles/Removal.antt =====
-- What deleting a role leaves (`deleteRole` of access.service.ts).
use vrindavan.Base.{
  ℕ, ◌≡◌, ◌∙◌, refl, true, false, inl, inr, some, none, List, [], ◌∷◌, arith, any, find_where,
  delete_where, ◌==◌, Bool-cases, Option-cases,
}
use vrindavan.Access.{
  AccessDb, RolePermission, RoleRow, UserRole, UserRow, role_names, joined_names,
}
use vrindavan.Access.Holders.{HasAdmin, is_active_admin}
use vrindavan.Access.Roles.{Role, delete_role, remove_role, find_role_in, find_role_by_id}

role_names-delete :
    (k id : ℕ) (roles : List RoleRow)
    → (k == id) ≡ false
    → role_names k (delete_where (λ r. r.id == id) roles) ≡ role_names k roles
role_names-delete k id [] h = refl
role_names-delete k id (r ∷ roles) h = ground (arith, role_names-delete k id roles h)

joined_names-delete :
    (u id : ℕ) (roles : List RoleRow) (xs : List UserRole)
    → any (λ x. x.role_id == id) xs ≡ false
    → joined_names u (delete_where (λ r. r.id == id) roles) xs ≡ joined_names u roles xs
joined_names-delete u id roles [] h = refl
joined_names-delete u id roles (x ∷ xs) h =
    ground (arith, role_names-delete x.role_id id roles, joined_names-delete u id roles xs)

none_found :
    (id : ℕ) (roles : List RoleRow)
    → any (λ r. r.id == id) roles ≡ false
    → find_where (λ r. r.id == id) roles ≡ none
none_found id [] h = refl
none_found id (x ∷ roles) h = ground (arith, none_found id roles)

found_any :
    (id : ℕ) (s : AccessDb) {role : Role}
    → find_role_in id s ≡ some role
    → any (λ r. r.id == id) s.roles ≡ true
unfolding find_role_in
found_any id s found = elim (Bool-cases (any (λ r. r.id == id) s.roles)) [
  | inl there ↦ there
  | inr absent ↦ absurd (ground (arith, none_found id s.roles absent, found))
]

-- Without the role of the id, and whatever else of the permissions.
abbrev without : ℕ → AccessDb → List RolePermission → AccessDb
without id s kept = record s {
  roles = delete_where (λ r. r.id == id) s.roles;
  role_permissions = kept;
}

without-admins :
    (id : ℕ) (s : AccessDb) (kept : List RolePermission) (users : List UserRow)
    → any (λ x. x.role_id == id) s.user_roles ≡ false
    → any (is_active_admin (without id s kept)) users ≡ any (is_active_admin s) users
without-admins id s kept [] unused = refl
without-admins id s kept (u ∷ users) unused =
    rw
      (
        joined_names-delete u.id id s.roles s.user_roles unused,
        without-admins id s kept users unused,
      )
      refl

-- Deleting a role, whether it succeeds or is refused, leaves an active Admin where there was one: the
-- database refuses to delete a role that a user has.
pub delete_role-HasAdmin : (id : ℕ) (s : AccessDb) → HasAdmin s → HasAdmin (delete_role id s).1
unfolding delete_role find_role_by_id remove_role
delete_role-HasAdmin id s h = elim (Option-cases (find_role_in id s)) [
  | inl absent ↦ rw absent h
  | inr (role, found) ↦ elim (Bool-cases role.is_system_role) [
    | inl built_in ↦ rw (found, built_in) h
    | inr custom ↦ elim (Bool-cases (any (λ x. x.role_id == id) s.user_roles)) [
      | inl used ↦ rw (found, custom, found_any id s found, used) h
      | inr unused ↦
          rw (found, custom, found_any id s found, unused)
            (without-admins id s (delete_where (λ x. x.role_id == id) s.role_permissions) s.users
                unused
              ∙ h)
    ]
  ]
]
