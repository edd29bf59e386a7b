-- ===== src/Examples/Admins.antt =====
-- A company with two administrators, of whom one leaves.
use vrindavan.Base.{ℕ, String, ◌≡◌, refl, true, false, none, some, List, [], ◌∷◌, arith}
use vrindavan.Exec.{ok, err}
use vrindavan.Access.{AccessDb, UserRow, UpdateUserProps, last_admin, system_role}
use vrindavan.Access.Service
use vrindavan.Access.Roles
use vrindavan.Access.Roles.{Role, find_role_in, find_role_by_id, set_role_permissions}
use vrindavan.Access.Roles.Locked.{codes_in}
use vrindavan.Access.System.{
  Call, run_access, update_user, set_user_roles, update_role, create_user, delete_role,
}
use vrindavan.Access.System.Kept.{IsGoverned}
use vrindavan.Access.System.Governed.{run_access-IsGoverned}

abbrev user : ℕ → String → UserRow
user id name = record {
  id = id;
  name = name;
  email = name;
  phone = none;
  password_hash = "x";
  is_active = true;
  must_change_password = false;
  last_login_at = none;
  created_at = 1;
}

abbrev office : AccessDb
office = record {
  users = user 1 "Asha" ∷ user 2 "Ravi" ∷ [];
  roles =
      record { id = 7; name = "Admin"; is_system_role = true; description = none }
      ∷ record { id = 8; name = "Viewer"; is_system_role = true; description = none }
      ∷ record { id = 9; name = "Packer"; is_system_role = false; description = none }
      ∷ [];
  user_roles = record { user_id = 1; role_id = 7 } ∷ record { user_id = 2; role_id = 7 } ∷ [];
  permissions =
      record { id = 21; module_name = "products"; action = "view"; code = "products.view" }
      ∷ record { id = 22; module_name = "products"; action = "edit"; code = "products.edit" }
      ∷ [];
  role_permissions =
      record { role_id = 7; permission_id = 21 } ∷ record { role_id = 7; permission_id = 22 } ∷ [];
  next_id = 100;
}

abbrev leave : UpdateUserProps
leave = record { name = none; phone = none; is_active = some false }

abbrev one_left : AccessDb
one_left = (Service.update_user 2 1 leave office).1

office-IsGoverned : IsGoverned office
office-IsGoverned = record {
  admin = refl;
  roles = record { below = omega arith; unique = ((refl, (refl, tt)), ((refl, tt), (tt, tt))) };
  built_in = refl;
  users = omega arith;
}

-- Ravi leaves, Asha is not let go, a role is renamed and removed, and no other becomes the Admin's.
abbrev changes : List (ℕ × Call)
changes =
    (1, update_user 2 1 leave)
    ∷ (2, set_user_roles 1 2 (8 ∷ []))
    ∷ (3, update_role 9 (record { name = some "Admin"; description = none }))
    ∷ (4, create_user "Mira" "mira" none "secret" (9 ∷ []))
    ∷ (5, delete_role 8)
    ∷ []

run_access-IsGoverned_example : IsGoverned (run_access (λ p. p) changes office)
run_access-IsGoverned_example = run_access-IsGoverned (λ p. p) changes office office-IsGoverned

-- The other one is not let go too.
last_one_stays : (Service.set_user_roles 1 2 (8 ∷ []) one_left).0 ≡ err last_admin
unfolding Service.set_user_roles Service.update_user
last_one_stays = refl

-- A built-in role is not deleted.
viewer_stays : Roles.delete_role 8 office ≡ (err system_role, office)
unfolding Roles.delete_role find_role_by_id find_role_in
viewer_stays = refl

viewer_edited : (set_role_permissions 8 ("products.view" ∷ []) office).0 ≡ ok ("products.view" ∷ [])
unfolding set_role_permissions
viewer_edited = refl

abbrev admin : Role
admin = record {
  id = 7;
  name = "Admin";
  is_system_role = true;
  description = none;
  permission_count = 2;
}

set_role_permissions-locked_example :
    codes_in 7 (set_role_permissions 7 [] office).1 ≡ codes_in 7 office
unfolding find_role_in
set_role_permissions-locked_example =
    Roles.Locked.set_role_permissions-locked 7 7 [] office admin refl refl
