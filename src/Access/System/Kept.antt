-- ===== src/Access/System/Kept.antt =====
-- What the calls on users leave as it was, and what governs a tenant: an active Admin, roles and
-- users under ids of their own, and no Admin role that is not built in.
use vrindavan.Base.{
  ℕ, String, inl, inr, Option-cases, ◌<◌, ◌≡◌, refl, ◌∙◌, Bool, true, not, ◌&&◌, leb, ◌||◌, ◌==◌,
  List, [], ◌∷◌, map, All, all, arith, update_where,
}
use vrindavan.Exec.{pure}
use vrindavan.Exec.Within.{IsPreorder}
use vrindavan.Exec.Leads.{
  Leads, Leads-bind, Leads-then, Leads-gets, Leads-or_throw, Leads-throw_if, Leads-if, Leads-pure,
}
use vrindavan.Tables.Ids.{IsNumbered}
use vrindavan.Access.{
  AccessDb, ManagedUser, self_modification, last_admin, roles_not_found, UserRow, RoleRow,
  UpdateUserProps, changed_user, write_user, write_user_roles, write_password, find_user_by_id,
  find_user_in, user_not_found, count_active_users_with_role, role_ids_exist,
}
use vrindavan.Access.Service.{
  admin_role, update_user, set_user_roles, reset_password, guard_deactivation, guard_demotion,
  deactivates, includes_admin, role_ids_include_admin,
}
use vrindavan.Access.Holders.{HasAdmin, is_active_admin, kept-updated, named}

-- A role of the Admin's name is built in.
abbrev pub is_sound : RoleRow → Bool
is_sound r = not (named r.name) || r.is_system_role

pub record IsGoverned (db : AccessDb) : Type 0 where
  pub admin : HasAdmin db
  pub roles : IsNumbered (λ r. r.id) db.next_id db.roles
  pub built_in : all is_sound db.roles ≡ true
  pub users : All (λ k. k < db.next_id) (map (λ u. u.id) db.users)

-- The roles, the next id and the ids of the users.
abbrev pub Kept : AccessDb → AccessDb → Type 0
Kept s t =
    (t.roles ≡ s.roles)
    × (t.next_id ≡ s.next_id)
    × (map (λ u. u.id) t.users ≡ map (λ u. u.id) s.users)

Kept-preorder : IsPreorder Kept
Kept-preorder = record {
  rfl = λ s. (refl, refl, refl);
  trans = λ s t u h k. (k.0 ∙ h.0, k.1 ∙ h.1, k.2 ∙ h.2);
}

ids-update :
    (f : UserRow → UserRow) (id : ℕ) (users : List UserRow)
    → ((u : UserRow) → (f u).id ≡ u.id)
    → map (λ u. u.id) (update_where (λ u. u.id == id) f users) ≡ map (λ u. u.id) users
ids-update f id [] same = refl
ids-update f id (u ∷ users) same = ground (arith, same u, ids-update f id users same)

pub IsGoverned-Kept : (s t : AccessDb) → Kept s t → HasAdmin t → IsGoverned s → IsGoverned t
IsGoverned-Kept s t (roles, next, ids) admin g = record {
  admin = admin;
  roles = rw (roles, next) g.roles;
  built_in = rw roles g.built_in;
  users = rw (next, ids) g.users;
}

write_user-Kept : (id : ℕ) (props : UpdateUserProps) → Leads Kept (write_user id props)
unfolding write_user find_user_by_id changed_user
write_user-Kept id props = record {
  at = λ s. (refl, refl, ids-update (changed_user props) id s.users (λ u. refl));
}

guard_deactivation-Kept :
    (id by : ℕ) (target : ManagedUser) → Leads Kept (guard_deactivation id by target)
unfolding guard_deactivation
guard_deactivation-Kept id by target =
    let K = Kept-preorder in
    Leads-then K _ _ (Leads-throw_if K (id == by) self_modification) (
      Leads-bind K _ _ (Leads-gets K (count_active_users_with_role admin_role))
        λ admins. Leads-throw_if K (includes_admin target && leb admins 1) last_admin)

guard_demotion-Kept : (id by : ℕ) → Leads Kept (guard_demotion id by)
unfolding guard_demotion
guard_demotion-Kept id by =
    let K = Kept-preorder in
    Leads-then K _ _ (Leads-throw_if K (id == by) self_modification) (
      Leads-bind K _ _ (Leads-gets K (count_active_users_with_role admin_role))
        λ admins. Leads-throw_if K (leb admins 1) last_admin)

pub update_user-Kept : (id by : ℕ) (props : UpdateUserProps) → Leads Kept (update_user id by props)
unfolding update_user find_user_by_id
update_user-Kept id by props =
    let K = Kept-preorder in
    Leads-bind K _ _ (Leads-gets K (find_user_in id)) λ found.
      Leads-bind K _ _ (Leads-or_throw K found (user_not_found id)) λ target.
        Leads-then K _ _
          (Leads-if K (deactivates props) (guard_deactivation id by target) (pure tt)
            (guard_deactivation-Kept id by target) (Leads-pure K tt))
          (Leads-bind K _ _ (write_user-Kept id props)
            λ updated. Leads-or_throw K updated (user_not_found id))

pub set_user_roles-Kept : (id by : ℕ) (ids : List ℕ) → Leads Kept (set_user_roles id by ids)
unfolding set_user_roles find_user_by_id write_user_roles
set_user_roles-Kept id by ids =
    let K = Kept-preorder in
    Leads-bind K _ _ (Leads-gets K (find_user_in id)) λ found.
      Leads-bind K _ _ (Leads-or_throw K found (user_not_found id)) λ target.
        Leads-bind K _ _ (Leads-gets K (role_ids_exist ids)) λ exist.
          Leads-then K _ _ (Leads-throw_if K (not exist) roles_not_found) (
            Leads-bind K _ _ (Leads-gets K (role_ids_include_admin ids)) λ stays.
              Leads-then K _ _
                (Leads-if K (includes_admin target && not stays) (guard_demotion id by) (pure tt)
                  (guard_demotion-Kept id by) (Leads-pure K tt))
                (Leads-then K (write_user_roles id ids) _ (record { at = λ s. (refl, refl, refl) })
                  (Leads-gets K (find_user_in id))))

-- A password is written for the user of the id, and nothing else.
pub reset_password-IsGoverned :
    (hash : String → String) (id : ℕ) (password : String) (s : AccessDb)
    → IsGoverned s
    → IsGoverned (reset_password hash id password s).1
unfolding reset_password find_user_by_id write_password
reset_password-IsGoverned hash id password s g =
    let written =
      λ (u : UserRow). record u { password_hash = hash password; must_change_password = true } in
    elim (Option-cases (find_user_in id s)) [
      | inl missing ↦ rw missing g
      | inr (target, found) ↦ rw found (
          IsGoverned-Kept s _ (refl, refl, ids-update written id s.users (λ u. refl))
            (kept-updated (is_active_admin s) written id s.users (λ u k. k) g.admin) g)
    ]
