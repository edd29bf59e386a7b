-- ===== src/Access.antt =====
-- Users, roles and permissions of a tenant (backend/src/modules/access): the tables, and the
-- repository (infrastructure/access.kysely-repository.ts) that AccessService works with.
mod Names
pub mod Service
pub mod Holders
pub mod LastAdmin
pub mod Roles
pub mod System
pub use Names.{same_text, order_by_name, any-order_by_name}
use vrindavan.Base.{
  ℕ, suc, String, Bool, true, false, not, ◌&&◌, ◌==◌, Option, none, some, List, [], ◌∷◌, ◌++◌, map,
  any, length, select_where, find_where, delete_where, update_where, get_or, if◌then◌else◌,
}
use vrindavan.Exec.{Exec, ok, ◌>>=◌, ◌>>◌, gets, pure, modify, throw_if, transaction}

-- A column that is changed only where a value is given.
abbrev pub given : {A : Type 0} → Option A → A → A
given none old = old
given (some new) old = new

-- The columns that are read; `updated_at` is written only.
pub record UserRow : Type 0 where
  pub id : ℕ
  pub name : String
  pub email : String
  pub phone : Option String
  pub password_hash : String
  pub is_active : Bool
  pub must_change_password : Bool
  pub last_login_at : Option ℕ
  pub created_at : ℕ

pub record RoleRow : Type 0 where
  pub id : ℕ
  pub name : String
  pub is_system_role : Bool
  pub description : Option String

pub record UserRole : Type 0 where
  pub user_id : ℕ
  pub role_id : ℕ

pub record PermissionRow : Type 0 where
  pub id : ℕ
  pub module_name : String
  pub action : String
  pub code : String

pub record RolePermission : Type 0 where
  pub role_id : ℕ
  pub permission_id : ℕ

pub record AccessDb : Type 0 where
  pub users : List UserRow
  pub roles : List RoleRow
  pub user_roles : List UserRole
  pub permissions : List PermissionRow
  pub role_permissions : List RolePermission
  pub next_id : ℕ

pub data AccessError : Type 0 where
  user_not_found role_not_found : ℕ → AccessError
  roles_not_found : AccessError
  duplicate_email : String → AccessError
  self_modification last_admin system_role admin_role_locked : AccessError
  -- a UNIQUE column or a foreign key of the database refused the statement
  constraint_violation : AccessError

abbrev pub Action : Type 0 → Type 0
Action = Exec AccessDb AccessError

pub record ManagedUser : Type 0 where
  pub id : ℕ
  pub name : String
  pub email : String
  pub phone : Option String
  pub is_active : Bool
  pub must_change_password : Bool
  pub last_login_at : Option ℕ
  pub created_at : ℕ
  pub roles : List String

-- `user_roles` joined with `roles`, for a user.
abbrev pub role_names : ℕ → List RoleRow → List String
role_names role_id [] = []
role_names role_id (r ∷ rs) =
    let rest = role_names role_id rs in if r.id == role_id then r.name ∷ rest else rest

abbrev pub joined_names : ℕ → List RoleRow → List UserRole → List String
joined_names user_id roles [] = []
joined_names user_id roles (x ∷ xs) =
    let rest = joined_names user_id roles xs in
    if x.user_id == user_id then role_names x.role_id roles ++ rest else rest

unfoldable pub roles_for_user : ℕ → AccessDb → List String
roles_for_user id db = order_by_name (λ n. n) (joined_names id db.roles db.user_roles)

abbrev pub to_user : UserRow → List String → ManagedUser
to_user row roles = record {
  id = row.id;
  name = row.name;
  email = row.email;
  phone = row.phone;
  is_active = row.is_active;
  must_change_password = row.must_change_password;
  last_login_at = row.last_login_at;
  created_at = row.created_at;
  roles = roles;
}

unfoldable pub list_users : Action (List ManagedUser)
unfolding roles_for_user
list_users =
    gets λ db. map (λ u. to_user u (roles_for_user u.id db)) (order_by_name (λ u. u.name) db.users)

unfoldable pub find_user_in : ℕ → AccessDb → Option ManagedUser
unfolding roles_for_user
find_user_in id db = elim (find_where (λ u. u.id == id) db.users) [
  | none ↦ none
  | some u ↦ some (to_user u (roles_for_user id db))
]

unfoldable pub find_user_by_id : ℕ → Action (Option ManagedUser)
unfolding find_user_in
find_user_by_id id = gets (find_user_in id)

unfoldable pub email_exists : String → AccessDb → Bool
email_exists email db = any (λ u. same_text u.email email) db.users

pub record CreateUserProps : Type 0 where
  pub name : String
  pub email : String
  pub phone : Option String
  pub password_hash : String
  pub must_change_password : Bool

unfoldable pub new_user : ℕ → CreateUserProps → ℕ → UserRow
new_user now props id = record {
  id = id;
  name = props.name;
  email = props.email;
  phone = props.phone;
  password_hash = props.password_hash;
  is_active = true;
  must_change_password = props.must_change_password;
  last_login_at = none;
  created_at = now;
}

abbrev pub fresh_id : Action ℕ
fresh_id db = (ok db.next_id, record db { next_id = suc db.next_id })

-- `users.email` is UNIQUE.
unfoldable pub insert_user : ℕ → CreateUserProps → Action ManagedUser
unfolding new_user email_exists
insert_user now props = do
  taken ← gets (email_exists props.email)
  throw_if taken constraint_violation
  id ← fresh_id
  modify (λ db. record db { users = db.users ++ new_user now props id ∷ [] })
  pure (to_user (new_user now props id) [])

pub record UpdateUserProps : Type 0 where
  pub name : Option String
  pub phone : Option (Option String)
  pub is_active : Option Bool

unfoldable pub changed_user : UpdateUserProps → UserRow → UserRow
changed_user props u = record u {
  name = given props.name u.name;
  phone = given props.phone u.phone;
  is_active = given props.is_active u.is_active;
}

unfoldable pub write_user : ℕ → UpdateUserProps → Action (Option ManagedUser)
unfolding changed_user find_user_by_id
write_user id props = do
  modify (λ db. record db { users = update_where (λ u. u.id == id) (changed_user props) db.users })
  find_user_by_id id

unfoldable pub write_password : ℕ → String → Action (Unit {0})
write_password id hash = modify λ db. record db {
  users =
      update_where (λ u. u.id == id)
        (λ u. record u { password_hash = hash; must_change_password = true }) db.users;
}

abbrev pub grants : ℕ → List ℕ → List UserRole
grants user_id = map (λ r. record { user_id = user_id; role_id = r })

-- `setUserRoles`: exactly these roles.
unfoldable pub write_user_roles : ℕ → List ℕ → Action (Unit {0})
write_user_roles user_id role_ids = modify λ db. record db {
  user_roles = delete_where (λ x. x.user_id == user_id) db.user_roles ++ grants user_id role_ids;
}

-- Ids without repetitions: `count(distinct …)` is their number.
abbrev pub distinct : List ℕ → List ℕ
distinct [] = []
distinct (x ∷ xs) = let rest = distinct xs in if any (λ y. y == x) rest then rest else x ∷ rest

abbrev pub user_has_role : ℕ → String → AccessDb → Bool
user_has_role id name db = any (λ n. same_text n name) (joined_names id db.roles db.user_roles)

abbrev pub active_holders : String → AccessDb → List ℕ
active_holders name db =
    map (λ u. u.id) (select_where (λ u. u.is_active && user_has_role u.id name db) db.users)

unfoldable pub count_active_users_with_role : String → AccessDb → ℕ
count_active_users_with_role name db = length (distinct (active_holders name db))

-- The rows of `roles WHERE id IN (…)`, counted.
unfoldable pub role_ids_exist : List ℕ → AccessDb → Bool
role_ids_exist ids db = elim ids [
  | [] ↦ true
  | x ∷ xs ↦
      length (select_where (λ r. any (λ id. id == r.id) (x ∷ xs)) db.roles) == length (x ∷ xs)
]
