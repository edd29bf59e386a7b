-- ===== src/Access/Service.antt =====
-- AccessService (backend/src/modules/access/application/access.service.ts): the guards on users.
use vrindavan.Base.{
  ℕ, String, Bool, true, false, not, ◌&&◌, ◌==◌, Option, none, some, List, [], ◌∷◌, any, find_where,
  leb, if◌then◌else◌,
}
use vrindavan.Exec.{◌>>=◌, ◌>>◌, gets, pure, or_throw, throw_if}
use vrindavan.Access.{
  Action, AccessDb, ManagedUser, UpdateUserProps, user_not_found, roles_not_found, duplicate_email,
  self_modification, last_admin, find_user_by_id, email_exists, role_ids_exist, insert_user,
  write_user, write_user_roles, write_password, count_active_users_with_role, same_text,
  order_by_name,
}

abbrev pub admin_role : String
admin_role = "Admin"

abbrev pub includes_admin : ManagedUser → Bool
includes_admin u = any (λ n. same_text n admin_role) u.roles

-- `roleIdsIncludeAdmin`: the first role of that name, in the order of `listRoles`.
unfoldable pub role_ids_include_admin : List ℕ → AccessDb → Bool
role_ids_include_admin ids db =
    elim (find_where (λ r. same_text r.name admin_role) (order_by_name (λ r. r.name) db.roles)) [
      | none ↦ false
      | some r ↦ any (λ id. id == r.id) ids
    ]

-- `if (input.roleIds.length > 0) await this.repo.setUserRoles(…)`
unfoldable pub grant_roles : ℕ → List ℕ → Action (Unit {0})
unfolding write_user_roles
grant_roles id [] = pure tt
grant_roles id (x ∷ xs) = write_user_roles id (x ∷ xs)

-- The hash of a password is a parameter.
unfoldable pub create_user :
    (String → String)
    → ℕ
    → String
    → String
    → Option String
    → String
    → List ℕ
    → Action (Option ManagedUser)
unfolding email_exists role_ids_exist insert_user grant_roles find_user_by_id
create_user hash now name email phone password role_ids = do
  taken ← gets (email_exists email)
  throw_if taken (duplicate_email email)
  exist ← gets (role_ids_exist role_ids)
  throw_if (not exist) roles_not_found
  user ← insert_user now (record {
    name = name;
    email = email;
    phone = phone;
    password_hash = hash password;
    must_change_password = true;
  })
  grant_roles user.id role_ids
  find_user_by_id user.id

-- `props.isActive === false`
abbrev pub deactivates : UpdateUserProps → Bool
deactivates props = elim props.is_active [ none ↦ false | some b ↦ not b ]

unfoldable pub guard_deactivation : ℕ → ℕ → ManagedUser → Action (Unit {0})
unfolding count_active_users_with_role
guard_deactivation id current_user_id target = do
  throw_if (id == current_user_id) self_modification
  admins ← gets (count_active_users_with_role admin_role)
  throw_if (includes_admin target && leb admins 1) last_admin

unfoldable pub update_user : ℕ → ℕ → UpdateUserProps → Action ManagedUser
unfolding find_user_by_id guard_deactivation write_user
update_user id current_user_id props = do
  found ← find_user_by_id id
  target ← or_throw found (user_not_found id)
  if deactivates props then guard_deactivation id current_user_id target else pure tt
  updated ← write_user id props
  or_throw updated (user_not_found id)

unfoldable pub guard_demotion : ℕ → ℕ → Action (Unit {0})
unfolding count_active_users_with_role
guard_demotion id current_user_id = do
  throw_if (id == current_user_id) self_modification
  admins ← gets (count_active_users_with_role admin_role)
  throw_if (leb admins 1) last_admin

unfoldable pub set_user_roles : ℕ → ℕ → List ℕ → Action (Option ManagedUser)
unfolding find_user_by_id role_ids_exist role_ids_include_admin guard_demotion write_user_roles
set_user_roles id current_user_id role_ids = do
  found ← find_user_by_id id
  target ← or_throw found (user_not_found id)
  exist ← gets (role_ids_exist role_ids)
  throw_if (not exist) roles_not_found
  will_be_admin ← gets (role_ids_include_admin role_ids)
  if includes_admin target && not will_be_admin then guard_demotion id current_user_id else pure tt
  write_user_roles id role_ids
  find_user_by_id id

unfoldable pub reset_password : (String → String) → ℕ → String → Action (Unit {0})
unfolding find_user_by_id write_password
reset_password hash id password = do
  found ← find_user_by_id id
  target ← or_throw found (user_not_found id)
  write_password id (hash password)
