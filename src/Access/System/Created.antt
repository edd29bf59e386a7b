-- ===== src/Access/System/Created.antt =====
-- Creating users and roles leaves a tenant governed (`createUser` and `createRole` of
-- access.service.ts).
use text.Mathlib.TextEquality.{eq_iff}
use vrindavan.Base.{
  ℕ, suc, ◌<◌, ◌≡◌, refl, sym, subst, String, Bool, true, false, ◌==◌, Option, List, [], ◌∷◌, ◌++◌,
  map, All, all, any, arith, inl, inr, Bool-cases, delete_where,
}
use vrindavan.Exec.{◌>>◌}
use vrindavan.Tables.Ids.{IsNumbered-append, IsNumbered-weaken}
use vrindavan.Access.{
  AccessDb, UserRow, RoleRow, UserRole, new_user, email_exists, role_ids_exist, write_user_roles,
  find_user_by_id, grants, joined_names, role_names, same_text,
}
use vrindavan.Access.Service.{admin_role, create_user, grant_roles}
use vrindavan.Access.Roles.{create_role, new_role}
use vrindavan.Access.Holders.{HasAdmin, is_active_admin, named, any-append, joined-other, any_mono}
use vrindavan.Access.System.Kept.{IsGoverned, is_sound}

module _ {A : Type 0} where
  pub any-append_left : (p : A → Bool) (xs ys : List A) → any p xs ≡ true → any p (xs ++ ys) ≡ true
  any-append_left p [] ys h = absurd (cc h)
  any-append_left p (x ∷ xs) ys h = ground (arith, any-append_left p xs ys)

  pub all-append :
      (p : A → Bool) (xs ys : List A) → all p xs ≡ true → all p ys ≡ true → all p (xs ++ ys) ≡ true
  all-append p [] ys h k = k
  all-append p (x ∷ xs) ys h k = ground (arith, all-append p xs ys)

-- The users whose ids are below `n` are admins still.
any-below :
    (p q : UserRow → Bool) (n : ℕ) (users : List UserRow)
    → ((u : UserRow) → u.id < n → p u ≡ true → q u ≡ true)
    → All (λ k. k < n) (map (λ u. u.id) users)
    → any p users ≡ true
    → any q users ≡ true
any-below p q n [] keep b h = h
any-below p q n (u ∷ users) keep b h = ground (arith, keep u b.0, any-below p q n users keep b.1)

ids-weaken : (n : ℕ) (ids : List ℕ) → All (λ k. k < n) ids → All (λ k. k < suc n) ids
ids-weaken n [] b = tt
ids-weaken n (k ∷ ids) b = (omega (arith, b.0), ids-weaken n ids b.1)

ids-append :
    (n : ℕ) (users : List UserRow) (u : UserRow)
    → u.id ≡ n
    → All (λ k. k < n) (map (λ u. u.id) users)
    → All (λ k. k < suc n) (map (λ u. u.id) (users ++ u ∷ []))
ids-append n [] u e b = (omega (arith, e), tt)
ids-append n (x ∷ users) u e b = (omega (arith, b.0), ids-append n users u e b.1)

-- A user under the next id, with no roles yet.
abbrev with_user : AccessDb → UserRow → AccessDb
with_user s u = record s { users = s.users ++ u ∷ []; next_id = suc s.next_id }

module _ (s : AccessDb) (g : IsGoverned s) where
  with_user-IsGoverned : (u : UserRow) → u.id ≡ s.next_id → IsGoverned (with_user s u)
  with_user-IsGoverned u e = record {
    admin = any-append_left (is_active_admin s) s.users (u ∷ []) g.admin;
    roles = IsNumbered-weaken (λ r. r.id) s.next_id (suc s.next_id) s.roles (omega arith) g.roles;
    built_in = g.built_in;
    users = ids-append s.next_id s.users u e g.users;
  }

  -- Roles that are granted to the next id take none from the users there are.
  with_roles-IsGoverned :
      (u : UserRow) (ids : List ℕ)
      → u.id ≡ s.next_id
      → IsGoverned (record (with_user s u) {
        user_roles =
            delete_where (λ x. x.user_id == s.next_id) s.user_roles ++ grants s.next_id ids;
      })
  with_roles-IsGoverned u ids e =
      let t = record (with_user s u) {
        user_roles =
            delete_where (λ x. x.user_id == s.next_id) s.user_roles ++ grants s.next_id ids;
      } in
      let old = with_user-IsGoverned u e in
      record {
        admin = any-append_left (is_active_admin t) s.users (u ∷ []) (
            any-below (is_active_admin s) (is_active_admin t) s.next_id s.users
              (λ v b a. rw (joined-other v.id s.next_id s.roles s.user_roles ids (ground arith)) a)
              g.users g.admin);
        roles = old.roles;
        built_in = old.built_in;
        users = old.users;
      }

abbrev invited : ℕ → String → String → Option String → String → AccessDb → UserRow
invited now name email phone password_hash s =
    new_user now
      (record {
        name = name;
        email = email;
        phone = phone;
        password_hash = password_hash;
        must_change_password = true;
      })
      s.next_id

granted-IsGoverned :
    (s : AccessDb) (u : UserRow) (ids : List ℕ)
    → IsGoverned s
    → u.id ≡ s.next_id
    → IsGoverned ((grant_roles s.next_id ids >> find_user_by_id s.next_id) (with_user s u)).1
unfolding grant_roles find_user_by_id write_user_roles
granted-IsGoverned s u [] g e = with_user-IsGoverned s g u e
granted-IsGoverned s u (x ∷ xs) g e = with_roles-IsGoverned s g u (x ∷ xs) e

-- An invited user, refused or not, leaves the tenant governed.
pub create_user-IsGoverned :
    (hash : String → String) (now : ℕ) (name email : String) (phone : Option String)
    (password : String) (ids : List ℕ) (s : AccessDb)
    → IsGoverned s
    → IsGoverned (create_user hash now name email phone password ids s).1
unfolding create_user
create_user-IsGoverned hash now name email phone password ids s g =
    elim (Bool-cases (email_exists email s)) [
      | inl taken ↦ rw taken g
      | inr free ↦ elim (Bool-cases (role_ids_exist ids s)) [
        | inr unknown ↦ rw (free, unknown) g
        | inl known ↦
            rw (free, known, free)
              (granted-IsGoverned s (invited now name email phone (hash password) s) ids g refl)
      ]
    ]

-- No one holds a role of that name where there is none.
unnamed-role :
    (k : ℕ) (roles : List RoleRow)
    → any (λ r. named r.name) roles ≡ false
    → any named (role_names k roles) ≡ false
unnamed-role k [] h = refl
unnamed-role k (r ∷ roles) h = ground (arith, unnamed-role k roles)

unnamed-joined :
    (y : ℕ) (roles : List RoleRow) (xs : List UserRole)
    → any (λ r. named r.name) roles ≡ false
    → any named (joined_names y roles xs) ≡ false
unnamed-joined y roles [] h = refl
unnamed-joined y roles (x ∷ xs) h = ground (
  arith,
  unnamed-role x.role_id roles h,
  any-append named (role_names x.role_id roles) (joined_names y roles xs),
  unnamed-joined y roles xs,
)

unnamed-admins :
    (s : AccessDb) (users : List UserRow)
    → any (λ r. named r.name) s.roles ≡ false
    → any (is_active_admin s) users ≡ false
unnamed-admins s [] h = refl
unnamed-admins s (u ∷ users) h =
    ground (arith, unnamed-joined u.id s.roles s.user_roles h, unnamed-admins s users)

pub admin-named : (s : AccessDb) → HasAdmin s → any (λ r. named r.name) s.roles ≡ true
admin-named s h = elim (Bool-cases (any (λ r. named r.name) s.roles)) [
  | inl there ↦ there
  | inr none_such ↦ absurd (cc (h, unnamed-admins s s.users none_such))
]

-- Where no role loses the Admin's name, no one loses the role.
joined_mono :
    (y : ℕ) (roles other : List RoleRow) (xs : List UserRole)
    → ((k : ℕ) → any named (role_names k roles) ≡ true → any named (role_names k other) ≡ true)
    → any named (joined_names y roles xs) ≡ true
    → any named (joined_names y other xs) ≡ true
joined_mono y roles other [] keep h = h
joined_mono y roles other (x ∷ xs) keep h = ground (
  arith,
  keep x.role_id,
  any-append named (role_names x.role_id roles) (joined_names y roles xs),
  any-append named (role_names x.role_id other) (joined_names y other xs),
  joined_mono y roles other xs keep,
)

pub roles-HasAdmin :
    (s : AccessDb) (roles : List RoleRow) (n : ℕ)
    → ((k : ℕ) → any named (role_names k s.roles) ≡ true → any named (role_names k roles) ≡ true)
    → HasAdmin s
    → HasAdmin (record s { roles = roles; next_id = n })
roles-HasAdmin s roles n keep h =
    any_mono (is_active_admin s) (is_active_admin (record s { roles = roles; next_id = n })) s.users
      (λ u a. ground (arith, joined_mono u.id s.roles roles s.user_roles keep)) h

role_names-append :
    (k : ℕ) (roles : List RoleRow) (r : RoleRow)
    → any named (role_names k roles) ≡ true
    → any named (role_names k (roles ++ r ∷ [])) ≡ true
role_names-append k [] r h = absurd (cc h)
role_names-append k (x ∷ roles) r h = ground (arith, role_names-append k roles r)

-- Of a name that is taken by the Admin role, no other is made.
pub any-text :
    (name : String) (roles : List RoleRow)
    → named name ≡ true
    → any (λ r. named r.name) roles ≡ true
    → any (λ r. same_text r.name name) roles ≡ true
any-text name roles same h =
    subst (λ n. any (λ r. same_text r.name n) roles ≡ true) (sym ((eq_iff name admin_role).0 same))
      h

pub create_role-IsGoverned :
    (name : String) (description : Option String) (s : AccessDb)
    → IsGoverned s
    → IsGoverned (create_role name description s).1
unfolding create_role
create_role-IsGoverned name description s g =
    elim (Bool-cases (any (λ r. same_text r.name name) s.roles)) [
      | inl taken ↦ rw taken g
      | inr free ↦
          let r = new_role name description s.next_id in
          rw free (record {
            admin =
                roles-HasAdmin s (s.roles ++ r ∷ []) (suc s.next_id)
                  (λ k. role_names-append k s.roles r) g.admin;
            roles = IsNumbered-append (λ r. r.id) s.next_id r refl s.roles g.roles;
            built_in =
                all-append is_sound s.roles (r ∷ []) g.built_in
                  (ground (arith, any-text name s.roles, admin-named s g.admin));
            users = ids-weaken s.next_id (map (λ u. u.id) s.users) g.users;
          })
    ]
