-- ===== src/Exec/Raises.antt =====
-- Which exceptions an action may throw: rules for each way to build one.
use vrindavan.Base.{◌≡◌, Bool, true, false, List, [], ◌∷◌, Option, none, some}
use vrindavan.Exec.{
  Result, ok, err, Exec, pure, or_throw, transaction, roll_back, continue, ◌>>=◌, ◌>>◌, throw_if,
  for_each, map_each,
}

module _ {S E : Type 0} (P : E → Type 0) where
  abbrev pub Raised : {A : Type 0} → Result E A × S → Type 0
  Raised (ok a, s) = Unit
  Raised (err e, s) = P e

  -- `m`, if it throws, throws an exception that `P` holds of.
  pub record Raises {A : Type 0} (m : Exec S E A) : Type 0 where
    pub at : (s : S) → Raised (m s)

  Raised-continue :
      {A B : Type 0} (r : Result E A × S) (f : A → Exec S E B)
      → Raised r
      → ((a : A) → Raises (f a))
      → Raised (continue r f)
  Raised-continue (ok a, s) f h k = (k a).at s
  Raised-continue (err e, s) f h k = h

  pub Raises-bind :
      {A B : Type 0} (m : Exec S E A) (f : A → Exec S E B)
      → Raises m
      → ((a : A) → Raises (f a))
      → Raises (m >>= f)
  Raises-bind m f h k = record { at = λ s. Raised-continue (m s) f (h.at s) k }

  pub Raises-then :
      {A B : Type 0} (m : Exec S E A) (k : Exec S E B) → Raises m → Raises k → Raises (m >> k)
  Raises-then m k h g = Raises-bind m (λ _. k) h (λ _. g)

  pub Raises-pure : {A : Type 0} (a : A) → Raises (pure a)
  Raises-pure a = record { at = λ s. tt }

  pub Raises-throw_if : (b : Bool) (e : E) → P e → Raises (throw_if b e)
  Raises-throw_if true e p = record { at = λ s. p }
  Raises-throw_if false e p = record { at = λ s. tt }

  pub Raises-or_throw : {A : Type 0} (o : Option A) (e : E) → P e → Raises (or_throw o e)
  Raises-or_throw none e p = record { at = λ s. p }
  Raises-or_throw (some a) e p = record { at = λ s. tt }

  pub Raises-for_each :
      {A : Type 0} (xs : List A) (f : A → Exec S E (Unit {0}))
      → ((x : A) → Raises (f x))
      → Raises (for_each xs f)
  unfolding for_each
  Raises-for_each [] f k = record { at = λ s. tt }
  Raises-for_each (x ∷ xs) f k = Raises-then (f x) (for_each xs f) (k x) (Raises-for_each xs f k)

  pub Raises-map_each :
      {A B : Type 0} (xs : List A) (f : A → Exec S E B)
      → ((x : A) → Raises (f x))
      → Raises (map_each xs f)
  unfolding map_each
  Raises-map_each [] f k = record { at = λ s. tt }
  Raises-map_each (x ∷ xs) f k =
      Raises-bind (f x) _ (k x)
        λ y. Raises-bind (map_each xs f) _ (Raises-map_each xs f k) λ ys. Raises-pure (y ∷ ys)

  Raised-roll_back : {A : Type 0} (s : S) (r : Result E A × S) → Raised r → Raised (roll_back s r)
  Raised-roll_back s (ok a, t) h = tt
  Raised-roll_back s (err e, t) h = h

  pub Raises-transaction : {A : Type 0} (m : Exec S E A) → Raises m → Raises (transaction m)
  Raises-transaction m h = record { at = λ s. Raised-roll_back s (m s) (h.at s) }

-- A transaction that threw has written nothing.
pub transaction-atomic :
    {S E A : Type 0} (m : Exec S E A) (s t : S) (e : E) → transaction m s ≡ (err e, t) → t ≡ s
transaction-atomic {S} {E} {A} m s t e = settle (m s)
  where
    settle : (r : Result E A × S) → roll_back s r ≡ (err e, t) → t ≡ s
    settle (ok a, u) h = cc
    settle (err f, u) h = cc
