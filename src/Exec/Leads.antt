-- ===== src/Exec/Leads.antt =====
-- What an action may do to the state, whether it returns or throws: `Leads R m` says that every run
-- of `m` leads from a state to one that `R` relates to it.
use vrindavan.Base.{Bool, Option, none, some, if◌then◌else◌, true, false}
use vrindavan.Exec.{
  Result, ok, err, Exec, pure, gets, or_throw, throw_if, continue, roll_back, transaction, ◌>>=◌,
  ◌>>◌,
}
use vrindavan.Exec.Within.{IsPreorder}

module _ {S E : Type 0} where
  pub record Leads {A : Type 0} (R : S → S → Type 0) (m : Exec S E A) : Type 0 where
    pub at : (s : S) → R s (m s).1

module _ {S E : Type 0} {R : S → S → Type 0} (pre : IsPreorder R) where
  pub Leads-pure : {A : Type 0} (a : A) → Leads {E = E} R (pure a)
  Leads-pure a = record { at = pre.rfl }

  pub Leads-gets : {A : Type 0} (f : S → A) → Leads {E = E} R (gets f)
  Leads-gets f = record { at = pre.rfl }

  pub Leads-or_throw : {A : Type 0} (o : Option A) (e : E) → Leads R (or_throw o e)
  Leads-or_throw none e = record { at = pre.rfl }
  Leads-or_throw (some a) e = record { at = pre.rfl }

  pub Leads-throw_if : (b : Bool) (e : E) → Leads R (throw_if b e)
  Leads-throw_if b e = record { at = pre.rfl }

  pub Leads-if :
      {A : Type 0} (b : Bool) (m k : Exec S E A)
      → Leads R m
      → Leads R k
      → Leads R (if b then m else k)
  Leads-if true m k h g = h
  Leads-if false m k h g = g

  module _ {A B : Type 0} where
    continued :
        (s : S) (r : Result E A × S) (f : A → Exec S E B)
        → R s r.1
        → ((a : A) → Leads R (f a))
        → R s (continue r f).1
    continued s (ok a, t) f h k = pre.trans s t _ h ((k a).at t)
    continued s (err e, t) f h k = h

    pub Leads-bind :
        (m : Exec S E A) (f : A → Exec S E B)
        → Leads R m
        → ((a : A) → Leads R (f a))
        → Leads R (m >>= f)
    Leads-bind m f h k = record { at = λ s. continued s (m s) f (h.at s) k }

    pub Leads-then : (m : Exec S E A) (k : Exec S E B) → Leads R m → Leads R k → Leads R (m >> k)
    Leads-then m k h g = record { at = λ s. continued s (m s) (λ _. k) (h.at s) (λ _. g) }

  pub Leads-transaction : {A : Type 0} (m : Exec S E A) → Leads R m → Leads R (transaction m)
  Leads-transaction {A} m h = record { at = λ s. settle s (m s) (h.at s) }
    where
      settle : (s : S) (r : Result E A × S) → R s r.1 → R s (roll_back s r).1
      settle s (ok a, t) g = g
      settle s (err e, t) g = pre.rfl s
