-- ===== src/Access/System.antt =====
-- Every call that changes the users and roles of a tenant (the methods of
-- backend/src/modules/access/application/access.service.ts), and histories of such calls. A call that
-- throws ends there and the next one follows.
pub mod Kept
pub mod Created
pub mod Renamed
pub mod Governed
use vrindavan.Base.{ℕ, String, Option, List, [], ◌∷◌}
use vrindavan.Access.{AccessDb, UpdateUserProps}
use vrindavan.Access.Service
use vrindavan.Access.Roles
use vrindavan.Access.Roles.{UpdateRoleProps}

pub data Call : Type 0 where
  create_user : String → String → Option String → String → List ℕ → Call
  update_user : ℕ → ℕ → UpdateUserProps → Call
  set_user_roles : ℕ → ℕ → List ℕ → Call
  reset_password : ℕ → String → Call
  create_role : String → Option String → Call
  update_role : ℕ → UpdateRoleProps → Call
  delete_role : ℕ → Call
  set_role_permissions : ℕ → List String → Call

-- The database after a call at a time, whether it returned or threw.
unfoldable pub step : (String → String) → ℕ → Call → AccessDb → AccessDb
unfolding Service.create_user Service.update_user Service.set_user_roles Service.reset_password
    Roles.create_role Roles.update_role Roles.delete_role Roles.set_role_permissions
step hash now (create_user name email phone password ids) db =
    (Service.create_user hash now name email phone password ids db).1
step hash now (update_user id by props) db = (Service.update_user id by props db).1
step hash now (set_user_roles id by ids) db = (Service.set_user_roles id by ids db).1
step hash now (reset_password id password) db = (Service.reset_password hash id password db).1
step hash now (create_role name description) db = (Roles.create_role name description db).1
step hash now (update_role id props) db = (Roles.update_role id props db).1
step hash now (delete_role id) db = (Roles.delete_role id db).1
step hash now (set_role_permissions id codes) db = (Roles.set_role_permissions id codes db).1

unfoldable pub run_access : (String → String) → List (ℕ × Call) → AccessDb → AccessDb
unfolding step
run_access hash [] db = db
run_access hash ((now, call) ∷ rest) db = run_access hash rest (step hash now call db)
