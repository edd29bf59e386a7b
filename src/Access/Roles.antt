-- ===== src/Access/Roles.antt =====
-- Roles and their permissions (backend/src/modules/access: infrastructure/access.kysely-repository.ts
-- and the guards of application/access.service.ts on roles).
pub mod Removal
pub mod Locked
use vrindavan.Base.{
  ℕ, String, Bool, false, not, ◌&&◌, ◌==◌, Option, none, some, List, [], ◌∷◌, ◌++◌, map, any,
  length, select_where, find_where, delete_where, update_where, if◌then◌else◌,
}
use vrindavan.Exec.{◌>>=◌, ◌>>◌, gets, pure, modify, or_throw, throw_if, transaction}
use vrindavan.Access.{
  given, Action, AccessDb, RoleRow, PermissionRow, RolePermission, role_not_found, system_role,
  admin_role_locked, constraint_violation, fresh_id, same_text, order_by_name,
}
use vrindavan.Access.Service.{admin_role}

-- A role as the repository answers it, `RoleRow` of access.repository.interface.ts.
pub record Role : Type 0 where
  pub id : ℕ
  pub name : String
  pub is_system_role : Bool
  pub description : Option String
  pub permission_count : ℕ

abbrev pub to_role : RoleRow → ℕ → Role
to_role row count = record {
  id = row.id;
  name = row.name;
  is_system_role = row.is_system_role;
  description = row.description;
  permission_count = count;
}

abbrev pub permission_count : ℕ → AccessDb → ℕ
permission_count role_id db = length (select_where (λ x. x.role_id == role_id) db.role_permissions)

unfoldable pub list_roles : Action (List Role)
list_roles =
    gets
      λ db. map (λ r. to_role r (permission_count r.id db)) (order_by_name (λ r. r.name) db.roles)

unfoldable pub find_role_in : ℕ → AccessDb → Option Role
find_role_in id db = elim (find_where (λ r. r.id == id) db.roles) [
  | none ↦ none
  | some row ↦ some (to_role row (permission_count id db))
]

unfoldable pub find_role_by_id : ℕ → Action (Option Role)
unfolding find_role_in
find_role_by_id id = gets (find_role_in id)

abbrev pub new_role : String → Option String → ℕ → RoleRow
new_role name description id = record {
  id = id;
  name = name;
  is_system_role = false;
  description = description;
}

-- `roles.name` is UNIQUE.
unfoldable pub create_role : String → Option String → Action Role
create_role name description = do
  taken ← gets λ db. any (λ r. same_text r.name name) db.roles
  throw_if taken constraint_violation
  id ← fresh_id
  modify (λ db. record db { roles = db.roles ++ new_role name description id ∷ [] })
  pure (to_role (new_role name description id) 0)

pub record UpdateRoleProps : Type 0 where
  pub name : Option String
  pub description : Option (Option String)

abbrev pub changed_role : UpdateRoleProps → RoleRow → RoleRow
changed_role props r = record r {
  name = given props.name r.name;
  description = given props.description r.description;
}

-- Another role has the name that is given.
abbrev pub name_taken : Option String → ℕ → List RoleRow → Bool
name_taken none id roles = false
name_taken (some name) id roles =
    any (λ r. not (r.id == id) && same_text r.name name) roles && any (λ r. r.id == id) roles

unfoldable pub write_role : ℕ → UpdateRoleProps → Action (Option Role)
unfolding find_role_by_id
write_role id props = do
  taken ← gets λ db. name_taken props.name id db.roles
  throw_if taken constraint_violation
  modify (λ db. record db { roles = update_where (λ r. r.id == id) (changed_role props) db.roles })
  find_role_by_id id

-- A role that a user has is not deleted (ON DELETE RESTRICT); its permissions go with it (CASCADE).
unfoldable pub remove_role : ℕ → Action Bool
remove_role id = do
  found ← gets λ db. any (λ r. r.id == id) db.roles
  used ← gets λ db. any (λ x. x.role_id == id) db.user_roles
  throw_if (found && used) constraint_violation
  modify (λ db. record db {
    roles = delete_where (λ r. r.id == id) db.roles;
    role_permissions =
        if found
        then delete_where (λ x. x.role_id == id) db.role_permissions
        else db.role_permissions;
  })
  pure found

-- The name is given, and is not the role's.
abbrev pub renames : UpdateRoleProps → Role → Bool
renames props role = elim props.name [ none ↦ false | some name ↦ not (same_text name role.name) ]

unfoldable pub update_role : ℕ → UpdateRoleProps → Action Role
unfolding find_role_by_id write_role
update_role id props = do
  found ← find_role_by_id id
  role ← or_throw found (role_not_found id)
  throw_if (role.is_system_role && renames props role) system_role
  updated ← write_role id props
  or_throw updated (role_not_found id)

unfoldable pub delete_role : ℕ → Action (Unit {0})
unfolding find_role_by_id remove_role
delete_role id = do
  found ← find_role_by_id id
  role ← or_throw found (role_not_found id)
  throw_if role.is_system_role system_role
  removed ← remove_role id
  pure tt

-- `ORDER BY module, action`: the rows of one module stay in the order of their actions.
unfoldable pub list_permissions : Action (List PermissionRow)
list_permissions =
    gets λ db. order_by_name (λ p. p.module_name) (order_by_name (λ p. p.action) db.permissions)

-- `role_permissions` joined with `permissions`, for a role.
abbrev pub codes_of : ℕ → List PermissionRow → List String
codes_of id ps = map (λ p. p.code) (select_where (λ p. p.id == id) ps)

abbrev pub joined_codes : ℕ → List PermissionRow → List RolePermission → List String
joined_codes role_id ps [] = []
joined_codes role_id ps (x ∷ xs) =
    let rest = joined_codes role_id ps xs in
    if x.role_id == role_id then codes_of x.permission_id ps ++ rest else rest

unfoldable pub role_permission_codes : ℕ → Action (List String)
role_permission_codes id = gets λ db. joined_codes id db.permissions db.role_permissions

abbrev pub permitted : ℕ → List String → AccessDb → List RolePermission
permitted role_id codes db =
    map (λ p. record { role_id = role_id; permission_id = p.id })
      (select_where (λ p. any (λ c. same_text p.code c) codes) db.permissions)

unfoldable pub write_role_permissions : ℕ → List String → Action (Unit {0})
write_role_permissions role_id codes = transaction (
    modify λ db. record db {
      role_permissions =
          delete_where (λ x. x.role_id == role_id) db.role_permissions
          ++ permitted role_id codes db;
    })

unfoldable pub get_role_permission_codes : ℕ → Action (List String)
unfolding find_role_by_id role_permission_codes
get_role_permission_codes id = do
  found ← find_role_by_id id
  role ← or_throw found (role_not_found id)
  role_permission_codes id

unfoldable pub set_role_permissions : ℕ → List String → Action (List String)
unfolding find_role_by_id write_role_permissions role_permission_codes
set_role_permissions id codes = do
  found ← find_role_by_id id
  role ← or_throw found (role_not_found id)
  throw_if (same_text role.name admin_role) admin_role_locked
  write_role_permissions id codes
  role_permission_codes id
