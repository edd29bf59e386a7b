-- ===== src/Access/System/Governed.antt =====
-- A tenant stays governed: whatever calls are made of AccessService, a user is active and holds the
-- Admin role (backend/src/modules/access/application/access.service.ts).
use vrindavan.Base.{
  ℕ, ◌<◌, ◌≡◌, refl, String, Bool, true, false, ◌&&◌, ◌==◌, Option, none, some, List, [], ◌∷◌, All,
  all, any, arith, ◌⊎◌, inl, inr, Bool-cases, Option-cases, find_where, delete_where, update_where,
}
use vrindavan.Tables.Ids.{IsUnique}
use vrindavan.Exec.{or_throw}
use vrindavan.Access.{AccessDb, AccessError, RoleRow, same_text}
use vrindavan.Access.Service.{admin_role}
use vrindavan.Access.Holders.{HasAdmin}
use vrindavan.Access.LastAdmin.{update_user-HasAdmin, set_user_roles-HasAdmin}
use vrindavan.Access.Roles.{
  Role, UpdateRoleProps, changed_role, name_taken, renames, to_role, permission_count, find_role_in,
  find_role_by_id, write_role, remove_role, write_role_permissions, role_permission_codes,
}
use vrindavan.Access.Roles
use vrindavan.Access.Roles.Removal.{delete_role-HasAdmin}
use vrindavan.Access.System.{
  Call, step, run_access, create_user, update_user, set_user_roles, reset_password, create_role,
  update_role, delete_role, set_role_permissions,
}
use vrindavan.Access.System.Kept.{
  IsGoverned, IsGoverned-Kept, is_sound, update_user-Kept, set_user_roles-Kept,
  reset_password-IsGoverned,
}
use vrindavan.Access.System.Created.{create_user-IsGoverned, create_role-IsGoverned}
use vrindavan.Access.System.Renamed.{changed-IsGoverned}

abbrev changed : ℕ → UpdateRoleProps → AccessDb → AccessDb
changed id props s = record s {
  roles = update_where (λ r. r.id == id) (changed_role props) s.roles;
}

or_throw-IsGoverned :
    (o : Option Role) (e : AccessError) (s : AccessDb)
    → IsGoverned s
    → IsGoverned (or_throw o e s).1
or_throw-IsGoverned none e s g = g
or_throw-IsGoverned (some role) e s g = g

found_role :
    (id : ℕ) (s : AccessDb) {row : RoleRow}
    → find_where (λ r. r.id == id) s.roles ≡ some row
    → find_role_in id s ≡ some (to_role row (permission_count id s))
unfolding find_role_in
found_role id s there = rw (there, find_role_in) refl

absent_role :
    (id : ℕ) (s : AccessDb) → find_where (λ r. r.id == id) s.roles ≡ none → find_role_in id s ≡ none
unfolding find_role_in
absent_role id s missing = rw (missing, find_role_in) refl

update_role-IsGoverned :
    (id : ℕ) (props : UpdateRoleProps) (s : AccessDb)
    → IsGoverned s
    → IsGoverned (Roles.update_role id props s).1
unfolding Roles.update_role find_role_by_id write_role
update_role-IsGoverned id props s g = elim (Option-cases (find_where (λ r. r.id == id) s.roles)) [
  | inl absent ↦ rw (absent_role id s absent) g
  | inr (row, there) ↦
      let role = to_role row (permission_count id s) in
      elim (Bool-cases (row.is_system_role && renames props role)) [
        | inl refused ↦ rw (found_role id s there, refused) g
        | inr allowed ↦ elim (Bool-cases (name_taken props.name id s.roles)) [
          | inl taken ↦ rw (found_role id s there, allowed, taken) g
          | inr free ↦
              rw (found_role id s there, allowed, free)
                (or_throw-IsGoverned (find_role_in id (changed id props s)) _ (changed id props s)
                  (changed-IsGoverned props id (permission_count id s) row s g there allowed free))
        ]
      ]
]

-- The rows that are left when those of an id are deleted.
All-delete :
    (P : RoleRow → Type 0) (id : ℕ) (roles : List RoleRow)
    → All P roles
    → All P (delete_where (λ r. r.id == id) roles)
All-delete P id [] h = tt
All-delete P id (r ∷ roles) h = ground (arith, All-delete P id roles h.1)

IsUnique-delete :
    (id : ℕ) (roles : List RoleRow)
    → IsUnique (λ r. r.id) roles
    → IsUnique (λ r. r.id) (delete_where (λ r. r.id == id) roles)
IsUnique-delete id [] h = tt
IsUnique-delete id (r ∷ roles) h = ground (
  arith,
  All-delete (λ (x : RoleRow). (x.id == r.id) ≡ false) id roles h.0,
  IsUnique-delete id roles h.1,
)

all-delete :
    (p : RoleRow → Bool) (id : ℕ) (roles : List RoleRow)
    → all p roles ≡ true
    → all p (delete_where (λ r. r.id == id) roles) ≡ true
all-delete p id [] h = h
all-delete p id (r ∷ roles) h = ground (arith, all-delete p id roles)

-- What deleting a role leaves of the tables.
abbrev Removed : ℕ → AccessDb → AccessDb → Type 0
Removed id s t =
    (t.users ≡ s.users)
    × (t.next_id ≡ s.next_id)
    × ((t.roles ≡ s.roles) ⊎ (t.roles ≡ delete_where (λ r. r.id == id) s.roles))

delete_role-Removed : (id : ℕ) (s : AccessDb) → Removed id s (Roles.delete_role id s).1
unfolding Roles.delete_role find_role_by_id remove_role
delete_role-Removed id s = elim (Option-cases (find_role_in id s)) [
  | inl absent ↦ rw absent (refl, refl, inl refl)
  | inr (role, found) ↦ elim (Bool-cases role.is_system_role) [
    | inl built_in ↦ rw (found, built_in) (refl, refl, inl refl)
    | inr custom ↦
        elim (Bool-cases
          (any (λ r. r.id == id) s.roles && any (λ x. x.role_id == id) s.user_roles)) [
            | inl used ↦ rw (found, custom, used) (refl, refl, inl refl)
            | inr unused ↦ rw (found, custom, unused) (refl, refl, inr refl)
          ]
  ]
]

Removed-IsGoverned :
    (id : ℕ) (s t : AccessDb) → Removed id s t → HasAdmin t → IsGoverned s → IsGoverned t
Removed-IsGoverned id s t (users, next, inl roles) a g = record {
  admin = a;
  roles = rw (roles, next) g.roles;
  built_in = rw roles g.built_in;
  users = rw (users, next) g.users;
}
Removed-IsGoverned id s t (users, next, inr roles) a g = record {
  admin = a;
  roles =
      rw (roles, next)
        (record {
          below = All-delete (λ r. r.id < s.next_id) id s.roles g.roles.below;
          unique = IsUnique-delete id s.roles g.roles.unique;
        });
  built_in = rw roles (all-delete is_sound id s.roles g.built_in);
  users = rw (users, next) g.users;
}

set_role_permissions-IsGoverned :
    (id : ℕ) (codes : List String) (s : AccessDb)
    → IsGoverned s
    → IsGoverned (Roles.set_role_permissions id codes s).1
unfolding Roles.set_role_permissions find_role_by_id write_role_permissions role_permission_codes
set_role_permissions-IsGoverned id codes s g = elim (Option-cases (find_role_in id s)) [
  | inl absent ↦ rw absent g
  | inr (role, found) ↦ elim (Bool-cases (same_text role.name admin_role)) [
    | inl locked ↦ rw (found, locked) g
    | inr free ↦
        rw (found, free)
          (record { admin = g.admin; roles = g.roles; built_in = g.built_in; users = g.users })
  ]
]

step-IsGoverned :
    (hash : String → String) (now : ℕ) (call : Call) (s : AccessDb)
    → IsGoverned s
    → IsGoverned (step hash now call s)
unfolding step
step-IsGoverned hash now (create_user name email phone password ids) s g =
    create_user-IsGoverned hash now name email phone password ids s g
step-IsGoverned hash now (update_user id by props) s g =
    IsGoverned-Kept s _ ((update_user-Kept id by props).at s)
      (update_user-HasAdmin id by props s g.admin) g
step-IsGoverned hash now (set_user_roles id by ids) s g =
    IsGoverned-Kept s _ ((set_user_roles-Kept id by ids).at s)
      (set_user_roles-HasAdmin id by ids s g.admin) g
step-IsGoverned hash now (reset_password id password) s g =
    reset_password-IsGoverned hash id password s g
step-IsGoverned hash now (create_role name description) s g =
    create_role-IsGoverned name description s g
step-IsGoverned hash now (update_role id props) s g = update_role-IsGoverned id props s g
step-IsGoverned hash now (delete_role id) s g =
    Removed-IsGoverned id s _ (delete_role-Removed id s) (delete_role-HasAdmin id s g.admin) g
step-IsGoverned hash now (set_role_permissions id codes) s g =
    set_role_permissions-IsGoverned id codes s g

-- After any history of calls of AccessService, whichever of them throw, from a database in which it
-- holds: some user is active and has the Admin role, every role of the Admin's name is built in, no
-- two roles have one id, and the ids of users and roles are below the next one.
pub run_access-IsGoverned :
    (hash : String → String) (history : List (ℕ × Call)) (s : AccessDb)
    → IsGoverned s
    → IsGoverned (run_access hash history s)
unfolding run_access
run_access-IsGoverned hash [] s g = g
run_access-IsGoverned hash ((now, call) ∷ rest) s g =
    run_access-IsGoverned hash rest (step hash now call s) (step-IsGoverned hash now call s g)
