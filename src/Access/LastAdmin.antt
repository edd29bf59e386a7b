-- ===== src/Access/LastAdmin.antt =====
-- AccessService never leaves a tenant without an active Admin: the guards of `updateUser` and
-- `setUserRoles` (backend/src/modules/access/application/access.service.ts).
use vrindavan.Base.{
  ℕ, ◌≡◌, refl, sym, ap, ◌∙◌, subst, inl, inr, Bool, true, false, not, ◌&&◌, ◌==◌, ==→eq, ==_refl,
  Bool-cases, Option-cases, Option, none, some, List, ◌++◌, delete_where, any, find_where,
  find_where-passes, update_where, leb, arith,
}
use vrindavan.Exec.{or_throw, ◌>>=◌}
use vrindavan.Access.{
  AccessDb, ManagedUser, AccessError, UserRow, RoleRow, UpdateUserProps, changed_user,
  roles_for_user, joined_names, write_user, write_user_roles, role_ids_exist, find_user_by_id,
  find_user_in, user_not_found, grants, user_has_role, count_active_users_with_role, order_by_name,
  any-order_by_name,
}
use vrindavan.Access.Service.{
  admin_role, includes_admin, update_user, set_user_roles, role_ids_include_admin, deactivates,
  guard_deactivation, guard_demotion,
}
use vrindavan.Access.Holders.{
  is_active_admin, HasAdmin, other, counted-other, absent-other, other-updated, kept-updated,
  any_mono, named, joined-other, granted, joined-granted, find-any, role_names-any,
}

abbrev Agrees : Bool → Option ManagedUser → Type 0
Agrees b none = Unit
Agrees b (some target) = includes_admin target ≡ b

find_user_in-Agrees :
    (id : ℕ) (db : AccessDb) → Agrees (user_has_role id admin_role db) (find_user_in id db)
unfolding find_user_in roles_for_user
find_user_in-Agrees id db = elim (Option-cases (find_where (λ u. u.id == id) db.users)) [
  | inl missing ↦ rw (missing, Agrees) tt
  | inr (u, row) ↦
      rw (row, Agrees) (any-order_by_name (λ n. n) named (joined_names id db.roles db.user_roles))
]

found-roles :
    (id : ℕ) (db : AccessDb) {target : ManagedUser}
    → find_user_in id db ≡ some target
    → includes_admin target ≡ user_has_role id admin_role db
found-roles id db found =
    subst (Agrees (user_has_role id admin_role db)) found (find_user_in-Agrees id db)

-- Where the guards let a change pass that takes the role or the account from a user, another
-- active Admin stands.
spare :
    (target : ManagedUser) (id : ℕ) (db : AccessDb)
    → find_user_in id db ≡ some target
    → (includes_admin target && leb (count_active_users_with_role admin_role db) 1) ≡ false
    → HasAdmin db
    → other (is_active_admin db) id db.users ≡ true
unfolding count_active_users_with_role
spare target id db found passed h = elim (Bool-cases (user_has_role id admin_role db)) [
  | inl holds ↦
      counted-other (is_active_admin db) id db.users (ground (arith, found-roles id db found))
  | inr lacks ↦
      absent-other (is_active_admin db) id db.users
        (λ v same. ground (arith, ap (λ k. user_has_role k admin_role db) same)) h
]

written : ℕ → UpdateUserProps → AccessDb → AccessDb
written id props db = record db {
  users = update_where (λ u. u.id == id) (changed_user props) db.users;
}

written-deactivated :
    (id : ℕ) (props : UpdateUserProps) (db : AccessDb)
    → other (is_active_admin db) id db.users ≡ true
    → HasAdmin (written id props db)
unfolding written
written-deactivated id props db o =
    other-updated (is_active_admin db) (changed_user props) id db.users o

written-active :
    (id : ℕ) (props : UpdateUserProps) (db : AccessDb)
    → deactivates props ≡ false
    → HasAdmin db
    → HasAdmin (written id props db)
unfolding written changed_user
written-active id props db a h =
    kept-updated (is_active_admin db) (changed_user props) id db.users (λ u k. ground arith) h

or_throw-keeps :
    (o : Option ManagedUser) (e : AccessError) (db : AccessDb)
    → HasAdmin db
    → HasAdmin (or_throw o e db).1
or_throw-keeps none e db h = h
or_throw-keeps (some u) e db h = h

write_user-HasAdmin :
    (id : ℕ) (props : UpdateUserProps) (db : AccessDb)
    → HasAdmin (written id props db)
    → HasAdmin ((write_user id props >>= λ updated. or_throw updated (user_not_found id)) db).1
unfolding write_user written find_user_by_id
write_user-HasAdmin id props db h =
    or_throw-keeps (find_user_in id (written id props db)) _ (written id props db) h

-- Where a user is active and holds the Admin role, one still does after `updateUser`, whoever calls
-- it and whether it returns or throws.
pub update_user-HasAdmin :
    (id current_user_id : ℕ) (props : UpdateUserProps) (db : AccessDb)
    → HasAdmin db
    → HasAdmin (update_user id current_user_id props db).1
unfolding update_user find_user_by_id guard_deactivation
update_user-HasAdmin id current_user_id props db h = elim (Option-cases (find_user_in id db)) [
  | inl missing ↦ rw missing h
  | inr (target, found) ↦ elim (Bool-cases (deactivates props)) [
    | inl off ↦ elim (Bool-cases (id == current_user_id)) [
      | inl self ↦ rw (found, off, self) h
      | inr else_ ↦
          elim (Bool-cases
            (includes_admin target && leb (count_active_users_with_role admin_role db) 1)) [
              | inl last ↦ rw (found, off, else_, last) h
              | inr passed ↦
                  rw (found, off, else_, passed)
                    (write_user-HasAdmin id props db
                      (written-deactivated id props db (spare target id db found passed h)))
            ]
    ]
    | inr on ↦ rw (found, on) (write_user-HasAdmin id props db (written-active id props db on h))
  ]
]

regranted : ℕ → List ℕ → AccessDb → AccessDb
regranted id ids db = record db {
  user_roles = delete_where (λ x. x.user_id == id) db.user_roles ++ grants id ids;
}

regranted-other :
    (id : ℕ) (ids : List ℕ) (db : AccessDb) (u : UserRow)
    → (u.id == id) ≡ false
    → is_active_admin (regranted id ids db) u ≡ is_active_admin db u
unfolding regranted
regranted-other id ids db u h =
    rw (joined-other u.id id db.roles db.user_roles ids (ground arith)) refl

regranted-spared :
    (id : ℕ) (ids : List ℕ) (db : AccessDb)
    → other (is_active_admin db) id db.users ≡ true
    → HasAdmin (regranted id ids db)
unfolding regranted
regranted-spared id ids db o =
    any_mono (λ u. is_active_admin db u && not (u.id == id)) (is_active_admin (regranted id ids db))
      db.users (λ u k. ground (arith, regranted-other id ids db u)) o

-- The role that `roleIdsIncludeAdmin` found among the ids is granted.
regranted-granted :
    (id : ℕ) (ids : List ℕ) (db : AccessDb)
    → role_ids_include_admin ids db ≡ true
    → user_has_role id admin_role (regranted id ids db) ≡ true
unfolding role_ids_include_admin regranted
regranted-granted id ids db h =
    elim (Option-cases (find_where (λ r. named r.name) (order_by_name (λ r. r.name) db.roles))) [
      | inl missing ↦ absurd (cc (rw (missing, role_ids_include_admin) at h))
      | inr (r, found) ↦ joined-granted id db.roles db.user_roles ids (
          granted id r.id db.roles ids (rw (found, role_ids_include_admin) at h)
            (role_names-any r.id db.roles (listed r found)))
    ]
  where
    listed :
        (r : RoleRow)
        → find_where (λ r. named r.name) (order_by_name (λ r. r.name) db.roles) ≡ some r
        → any (λ x. x.id == r.id && named x.name) db.roles ≡ true
    listed r found =
        sym (any-order_by_name (λ r. r.name) (λ x. x.id == r.id && named x.name) db.roles)
        ∙ find-any (λ r. named r.name) (λ x. x.id == r.id && named x.name)
            (order_by_name (λ r. r.name) db.roles) found
            (ground (
              arith,
              ==_refl r.id,
              find_where-passes (λ r. named r.name) (order_by_name (λ r. r.name) db.roles) found,
            ))

regranted-admin :
    (id : ℕ) (ids : List ℕ) (db : AccessDb)
    → role_ids_include_admin ids db ≡ true
    → HasAdmin db
    → HasAdmin (regranted id ids db)
unfolding regranted
regranted-admin id ids db h k =
    any_mono (is_active_admin db) (is_active_admin (regranted id ids db)) db.users keeps k
  where
    keeps :
        (u : UserRow) → is_active_admin db u ≡ true → is_active_admin (regranted id ids db) u ≡ true
    keeps u a = elim (Bool-cases (u.id == id)) [
      | inl same ↦ ground (
        arith,
        ap (λ k. user_has_role k admin_role (regranted id ids db)) (==→eq _ _ same),
        regranted-granted id ids db h,
      )
      | inr different ↦ regranted-other id ids db u different ∙ a
    ]

-- Where a user is active and holds the Admin role, one still does after `setUserRoles`, whoever calls
-- it and whether it returns or throws.
pub set_user_roles-HasAdmin :
    (id current_user_id : ℕ) (ids : List ℕ) (db : AccessDb)
    → HasAdmin db
    → HasAdmin (set_user_roles id current_user_id ids db).1
unfolding set_user_roles find_user_by_id guard_demotion write_user_roles regranted
set_user_roles-HasAdmin id current_user_id ids db h = elim (Option-cases (find_user_in id db)) [
  | inl missing ↦ rw missing h
  | inr (target, found) ↦ elim (Bool-cases (role_ids_exist ids db)) [
    | inr unknown ↦ rw (found, unknown) h
    | inl known ↦ elim (Bool-cases (role_ids_include_admin ids db)) [
      | inl stays ↦ elim (Bool-cases (includes_admin target)) [
        | inl holds ↦ rw (found, known, stays, holds) (regranted-admin id ids db stays h)
        | inr lacks ↦ rw (found, known, stays, lacks) (regranted-admin id ids db stays h)
      ]
      | inr leaves ↦ elim (Bool-cases (includes_admin target)) [
        | inr lacks ↦
            rw (found, known, leaves, lacks)
              (regranted-spared id ids db (spare target id db found (rw lacks refl) h))
        | inl holds ↦ elim (Bool-cases (id == current_user_id)) [
          | inl self ↦ rw (found, known, leaves, holds, self) h
          | inr another ↦ elim (Bool-cases (leb (count_active_users_with_role admin_role db) 1)) [
            | inl last ↦ rw (found, known, leaves, holds, another, last) h
            | inr passed ↦
                rw (found, known, leaves, holds, another, passed)
                  (regranted-spared id ids db
                    (spare target id db found (rw (holds, passed) refl) h))
          ]
        ]
      ]
    ]
  ]
]
