-- ===== src/Access/Names.antt =====
-- Names as text: equality, and the order of `ORDER BY name` (that of the characters).
use Prim.Native.String.{compare}
use text.Mathlib.Text.{◌==◌, is_le}
use vrindavan.Base.{String, Bool, ◌||◌, ◌≡◌, refl, arith, List, [], ◌∷◌, any, if◌then◌else◌}

abbrev pub same_text : String → String → Bool
same_text s t = s == t

module _ {R : Type 0} (name_of : R → String) where
  abbrev pub insert_by_name : R → List R → List R
  insert_by_name x [] = x ∷ []
  insert_by_name x (y ∷ ys) =
      let rest = insert_by_name x ys in
      if is_le (compare (name_of x) (name_of y)) then x ∷ y ∷ ys else y ∷ rest

  abbrev pub order_by_name : List R → List R
  order_by_name [] = []
  order_by_name (x ∷ xs) = insert_by_name x (order_by_name xs)

  any-insert_by_name :
      (p : R → Bool) (x : R) (xs : List R) → any p (insert_by_name x xs) ≡ (p x || any p xs)
  any-insert_by_name p x [] = refl
  any-insert_by_name p x (y ∷ ys) = ground (arith, any-insert_by_name p x ys)

  -- Ordering a list keeps what is in it.
  pub any-order_by_name : (p : R → Bool) (xs : List R) → any p (order_by_name xs) ≡ any p xs
  any-order_by_name p [] = refl
  any-order_by_name p (x ∷ xs) =
      ground (arith, any-insert_by_name p x (order_by_name xs), any-order_by_name p xs)
