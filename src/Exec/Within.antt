-- ===== src/Exec/Within.antt =====
-- What an action may do to the state: rules for each way to build one. `Within R m` says that a
-- run of `m` that returns leads from `s` to a state that `R` relates to `s`.
use vrindavan.Base.{◌≡◌, subst, Bool, true, false, List, [], ◌∷◌, Option, none, some}
use vrindavan.Exec.{
  Result, ok, err, Exec, pure, throw, gets, or_throw, transaction, roll_back, continue, ◌>>=◌, ◌>>◌,
  throw_if, for_each, map_each,
}

module _ {S E : Type 0} where
  abbrev pub Post : {A : Type 0} → (S → S → Type 0) → S → Result E A × S → Type 0
  Post R s (ok a, s') = R s s'
  Post R s (err e, s') = Unit

  pub record Within {A : Type 0} (R : S → S → Type 0) (m : Exec S E A) : Type 0 where
    pub at : (s : S) → Post R s (m s)

-- A relation that holds of a state and itself, and of two steps together.
module _ {S : Type 0} where
  pub record IsPreorder (R : S → S → Type 0) : Type 0 where
    pub rfl : (s : S) → R s s
    pub trans : (s t u : S) → R s t → R t u → R s u

pub Post-map :
    {S E A : Type 0} (R Q : S → S → Type 0) (s u : S) (r : Result E A × S)
    → ((t : S) → R s t → Q u t)
    → Post R s r
    → Post Q u r
Post-map R Q s u (ok a, t) f h = f t h
Post-map R Q s u (err e, t) f h = tt

pub Within-weaken :
    {S E A : Type 0} (R Q : S → S → Type 0) (m : Exec S E A)
    → ((s t : S) → R s t → Q s t)
    → Within R m
    → Within Q m
Within-weaken R Q m f h = record { at = λ s. Post-map R Q s s (m s) (f s) (h.at s) }

-- Two runs in turn: the second begins where the first returned.
module _ {S E A B : Type 0} {R Q T : S → S → Type 0}
    (join : (s t u : S) → R s t → Q t u → T s u) where
  Post-continue :
      (s : S) (r : Result E A × S) (f : A → Exec S E B)
      → Post R s r
      → ((a : A) → Within Q (f a))
      → Post T s (continue r f)
  Post-continue s (ok a, s') f h k = extend (f a s') ((k a).at s')
    where
      extend : (q : Result E B × S) → Post Q s' q → Post T s q
      extend (ok b, s'') g = join s s' s'' h g
      extend (err e, s'') g = tt
  Post-continue s (err e, s') f h k = tt

  pub Within-seq :
      (m : Exec S E A) (f : A → Exec S E B)
      → Within R m
      → ((a : A) → Within Q (f a))
      → Within T (m >>= f)
  Within-seq m f h k = record { at = λ s. Post-continue s (m s) f (h.at s) k }

module _ {S E : Type 0} {R : S → S → Type 0} (pre : IsPreorder R) where
  pub Within-pure : {A : Type 0} (a : A) → Within {E = E} R (pure a)
  Within-pure a = record { at = pre.rfl }

  pub Within-throw : {A : Type 0} (e : E) → Within {A = A} R (throw e)
  Within-throw e = record { at = λ s. tt }

  pub Within-gets : {A : Type 0} (f : S → A) → Within {E = E} R (gets f)
  Within-gets f = record { at = pre.rfl }

  pub Within-or_throw : {A : Type 0} (o : Option A) (e : E) → Within R (or_throw o e)
  Within-or_throw none e = record { at = λ s. tt }
  Within-or_throw (some a) e = record { at = pre.rfl }

  pub Within-throw_if : (b : Bool) (e : E) → Within R (throw_if b e)
  Within-throw_if true e = record { at = λ s. tt }
  Within-throw_if false e = record { at = pre.rfl }

  pub Within-bind :
      {A B : Type 0} (m : Exec S E A) (f : A → Exec S E B)
      → Within R m
      → ((a : A) → Within R (f a))
      → Within R (m >>= f)
  Within-bind m f h k = Within-seq pre.trans m f h k

  pub Within-then :
      {A B : Type 0} (m : Exec S E A) (k : Exec S E B) → Within R m → Within R k → Within R (m >> k)
  Within-then m k h g = Within-seq pre.trans m (λ _. k) h (λ _. g)

  pub Within-for_each :
      {A : Type 0} (xs : List A) (f : A → Exec S E (Unit {0}))
      → ((x : A) → Within R (f x))
      → Within R (for_each xs f)
  unfolding for_each
  Within-for_each [] f k = record { at = pre.rfl }
  Within-for_each (x ∷ xs) f k = Within-then (f x) (for_each xs f) (k x) (Within-for_each xs f k)

  pub Within-map_each :
      {A B : Type 0} (xs : List A) (f : A → Exec S E B)
      → ((x : A) → Within R (f x))
      → Within R (map_each xs f)
  unfolding map_each
  Within-map_each [] f k = record { at = pre.rfl }
  Within-map_each (x ∷ xs) f k =
      Within-bind (f x) _ (k x)
        λ y. Within-bind (map_each xs f) _ (Within-map_each xs f k) λ ys. Within-pure (y ∷ ys)

  -- A rolled-back transaction leads nowhere, so here the relation holds of every run.
  pub transaction-holds :
      {A : Type 0} (m : Exec S E A) (s : S) → Within R m → R s (transaction m s).1
  transaction-holds {A} m s h = settle (m s) (h.at s)
    where
      settle : (r : Result E A × S) → Post R s r → R s (roll_back s r).1
      settle (ok a, s') g = g
      settle (err e, s') g = pre.rfl s

-- Rolling back leaves a run that returned as it was.
pub Post-roll_back :
    {S E A : Type 0} (R : S → S → Type 0) (s : S) (r : Result E A × S)
    → Post R s r
    → Post R s (roll_back s r)
Post-roll_back R s (ok a, t) h = h
Post-roll_back R s (err e, t) h = tt

module _ {S E A : Type 0} {R : S → S → Type 0} where
  pub Within-transaction : (m : Exec S E A) → Within R m → Within R (transaction m)
  Within-transaction m h = record { at = λ s. Post-roll_back R s (m s) (h.at s) }

  -- What a run that is known to have returned has done.
  pub Within-returned : (m : Exec S E A) (s t : S) (a : A) → Within R m → m s ≡ (ok a, t) → R s t
  Within-returned m s t a h e = subst (Post R s) e (h.at s)
