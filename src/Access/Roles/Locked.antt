-- ===== src/Access/Roles/Locked.antt =====
-- The permissions of the Admin role (`setRolePermissions` of access.service.ts).
use vrindavan.Base.{
  ℕ, ◌≡◌, refl, String, true, false, inl, inr, some, List, [], ◌∷◌, ◌++◌, arith, any, map,
  select_where, delete_where, ◌==◌, ==→eq, Bool-cases, Option-cases,
}
use vrindavan.Access.{AccessDb, PermissionRow, RolePermission, same_text}
use vrindavan.Access.Service.{admin_role}
use vrindavan.Access.Roles.{
  Role, find_role_in, find_role_by_id, joined_codes, role_permission_codes, write_role_permissions,
  set_role_permissions,
}

-- The codes of the permissions that a role has.
abbrev pub codes_in : ℕ → AccessDb → List String
codes_in id db = joined_codes id db.permissions db.role_permissions

others-permitted :
    (k id : ℕ) (ps qs : List PermissionRow)
    → (k == id) ≡ false
    → joined_codes k ps (map (λ p. record { role_id = id; permission_id = p.id }) qs) ≡ []
others-permitted k id ps [] h = refl
others-permitted k id ps (q ∷ qs) h = ground (arith, others-permitted k id ps qs)

others-written :
    (k id : ℕ) (ps qs : List PermissionRow) (xs : List RolePermission)
    → (k == id) ≡ false
    → joined_codes k ps (
        delete_where (λ x. x.role_id == id) xs
        ++ map (λ p. record { role_id = id; permission_id = p.id }) qs)
      ≡ joined_codes k ps xs
others-written k id ps qs [] h = others-permitted k id ps qs h
others-written k id ps qs (x ∷ xs) h = ground (arith, others-written k id ps qs xs)

-- Whatever is asked for and of whichever role, the permissions of a role that is named Admin stay
-- what they were.
pub set_role_permissions-locked :
    (k id : ℕ) (codes : List String) (s : AccessDb) (role : Role)
    → find_role_in k s ≡ some role
    → same_text role.name admin_role ≡ true
    → codes_in k (set_role_permissions id codes s).1 ≡ codes_in k s
unfolding set_role_permissions find_role_by_id write_role_permissions role_permission_codes
set_role_permissions-locked k id codes s role there admin =
    elim (Option-cases (find_role_in id s)) [
      | inl absent ↦ rw absent refl
      | inr (changed, found) ↦ elim (Bool-cases (same_text changed.name admin_role)) [
        | inl locked ↦ rw (found, locked) refl
        | inr free ↦ elim (Bool-cases (k == id)) [
          | inl same ↦ let eq = ==→eq k id same in absurd cc
          | inr another ↦
              rw (found, free)
                (others-written k id s.permissions
                  (select_where (λ p. any (λ c. same_text p.code c) codes) s.permissions)
                  s.role_permissions another)
        ]
      ]
    ]
