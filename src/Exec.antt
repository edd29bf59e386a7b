-- ===== src/Exec.antt =====
-- Repository and service methods as actions: state and exceptions (the `async` methods of
-- backend/src/modules, which await one database call after another). The state comes back
-- beside an exception too, since a statement outside a transaction stays written.
pub mod Within
pub mod Raises
pub mod Leads
use vrindavan.Base.{Bool, true, false, Option, none, some, List, [], ◌∷◌, if◌then◌else◌}

pub data Result {ℓ} (E A : Type ℓ) : Type ℓ where
  ok : A → Result E A
  err : E → Result E A

abbrev pub Exec {ℓ} : Type ℓ → Type ℓ → Type ℓ → Type ℓ
Exec S E A = S → Result E A × S

module _ {ℓ} {S E A : Type ℓ} where
  abbrev pub pure : A → Exec S E A
  pure a s = (ok a, s)

  abbrev pub throw : E → Exec S E A
  throw e s = (err e, s)

  abbrev pub gets : (S → A) → Exec S E A
  gets f s = (ok (f s), s)

  abbrev pub or_throw : Option A → E → Exec S E A
  or_throw none e = throw e
  or_throw (some a) e = pure a

  -- An exception brings back the state in which the transaction began.
  abbrev pub roll_back : S → Result E A × S → Result E A × S
  roll_back s (ok a, s') = (ok a, s')
  roll_back s (err e, s') = (err e, s)

  -- `db.transaction().execute(m)`: Kysely rolls back when the callback throws.
  abbrev pub transaction : Exec S E A → Exec S E A
  transaction m s = roll_back s (m s)

module _ {ℓ} {S E A B : Type ℓ} where
  abbrev pub continue : Result E A × S → (A → Exec S E B) → Result E B × S
  continue (ok a, s) f = f a s
  continue (err e, s) f = (err e, s)

  infixl 5 ◌>>=◌ ◌>>◌
  abbrev pub ◌>>=◌ : Exec S E A → (A → Exec S E B) → Exec S E B
  ◌>>=◌ m f s = continue (m s) f

  abbrev pub ◌>>◌ : Exec S E A → Exec S E B → Exec S E B
  ◌>>◌ m k s = continue (m s) (λ _. k)

module _ {S E : Type 0} where
  abbrev pub modify : (S → S) → Exec S E (Unit {0})
  modify f s = (ok tt, f s)

  abbrev pub throw_if : Bool → E → Exec S E (Unit {0})
  throw_if c e s = (if c then err e else ok tt, s)

  -- `for (const x of xs) await f(x)`
  unfoldable pub for_each : {A : Type 0} → List A → (A → Exec S E (Unit {0})) → Exec S E (Unit {0})
  for_each [] f = pure tt
  for_each (x ∷ xs) f = f x >> for_each xs f

  -- the same, collecting what each call returns
  unfoldable pub map_each : {A B : Type 0} → List A → (A → Exec S E B) → Exec S E (List B)
  map_each [] f = pure []
  map_each (x ∷ xs) f = f x >>= λ y. map_each xs f >>= λ ys. pure (y ∷ ys)
