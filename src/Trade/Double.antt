-- ===== src/Trade/Double.antt =====
-- JavaScript numbers that are not negative, as the repositories of sales and purchase compute with
-- them: binary floating point with 53 bits, each operation rounded to the nearest double, and ties to
-- the even one. Exact below 2 ^ 53; an amount of money is below 10 ^ 12 where it is stored.
use vrindavan.Base.{
  ℕ, zero, suc, ◌+◌, ◌-◌, ◌*◌, ◌/◌, ◌%◌, Bool, true, false, List, [], ◌∷◌, ltb, ◌==◌, if◌then◌else◌,
}

-- `mantissa / 2 ^ scale`
pub record Double : Type 0 where
  pub mantissa : ℕ
  pub scale : ℕ

abbrev pub two_to : ℕ → ℕ
two_to zero = 1
two_to (suc k) = 2 * two_to k

-- The nearest natural number, and of two the even one.
abbrev pub to_nearest : ℕ → ℕ → ℕ
to_nearest p q =
    let down = p / q in
    let rest = p % q * 2 in
    if ltb rest q then down else if ltb q rest then down + 1 else down + down % 2

abbrev pub smallest_mantissa : ℕ
smallest_mantissa = 4503599627370496

-- The nearest double to `p / q`, from a scale on, on fuel for the scales that are left.
unfoldable pub nearest_from : ℕ → ℕ → ℕ → ℕ → Double
nearest_from zero k p q = record { mantissa = to_nearest p q; scale = k }
nearest_from (suc fuel) k p q = elim (ltb p (smallest_mantissa * q)) [
  | true ↦ nearest_from fuel (suc k) (2 * p) q
  | false ↦ record { mantissa = to_nearest p q; scale = k }
]

-- The least positive double is 2 ^ -1074.
unfoldable pub nearest : ℕ → ℕ → Double
unfolding nearest_from
nearest p q = elim (p == 0) [
  | true ↦ record { mantissa = 0; scale = 0 }
  | false ↦ nearest_from 1074 0 p q
]

-- A number of hundredths: `Number` of a column with two decimals, or a value of the request.
unfoldable pub hundredths : ℕ → Double
unfolding nearest
hundredths n = nearest n 100

unfoldable pub thousandths : ℕ → Double
unfolding nearest
thousandths n = nearest n 1000

abbrev pub one : Double
one = record { mantissa = 1; scale = 0 }

unfoldable pub add : Double → Double → Double
unfolding nearest
add x y =
    nearest (x.mantissa * two_to y.scale + y.mantissa * two_to x.scale) (two_to (x.scale + y.scale))

-- Of a difference that is not negative.
unfoldable pub subtract : Double → Double → Double
unfolding nearest
subtract x y =
    nearest (x.mantissa * two_to y.scale - y.mantissa * two_to x.scale) (two_to (x.scale + y.scale))

unfoldable pub multiply : Double → Double → Double
unfolding nearest
multiply x y = nearest (x.mantissa * y.mantissa) (two_to (x.scale + y.scale))

-- `x / 100`
unfoldable pub percent : Double → Double
unfolding nearest
percent x = nearest x.mantissa (100 * two_to x.scale)

unfoldable pub is_less : Double → Double → Bool
is_less x y = ltb (x.mantissa * two_to y.scale) (y.mantissa * two_to x.scale)

abbrev pub is_same : Double → Double → Bool
is_same x y = x.mantissa * two_to y.scale == y.mantissa * two_to x.scale

abbrev pub sum_from : Double → List Double → Double
sum_from sum [] = sum
sum_from sum (x ∷ xs) = sum_from (add sum x) xs

-- `xs.reduce((sum, x) => sum + x, 0)`
unfoldable pub reduce_sum : List Double → Double
unfolding add
reduce_sum = sum_from (record { mantissa = 0; scale = 0 })

-- `numeric(18,2)`, in hundredths: the column rounds the decimal text of the number, halves up. The
-- text of the double that is nearest to a half of a cent is that half.
unfoldable pub to_column : Double → ℕ
unfolding nearest
to_column x =
    let q = two_to x.scale in
    let down = 100 * x.mantissa / q in
    if is_same x (nearest (2 * down + 1) 200)
    then down + 1
    else if ltb (100 * x.mantissa % q * 2) q
    then down
    else down + 1
