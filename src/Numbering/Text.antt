-- ===== src/Numbering/Text.antt =====
-- Text as lists of character codes, and the SQL functions on it that document numbers use.
use Prim.Native.Char.{code}
use vrindavan.Base.{
  ℕ, zero, suc, ◌+◌, ◌-◌, ◌/◌, ◌%◌, String, Bool, ◌&&◌, ◌||◌, List, [], ◌∷◌, ltb, leb, select_where,
  if◌then◌else◌, length,
}

abbrev pub codes : String → List ℕ
codes String.[] = []
codes (String.◌∷◌ c s) = code c ∷ codes s

-- What `regexp_replace(…, '[^0-9A-Za-z]', '', 'g')` keeps.
is_alphanumeric : ℕ → Bool
is_alphanumeric c =
    (leb b'0' c && leb c b'9') || ((leb b'A' c && leb c b'Z') || (leb b'a' c && leb c b'z'))

unfoldable pub alphanumeric : List ℕ → List ℕ
unfolding is_alphanumeric
alphanumeric = select_where is_alphanumeric

-- `n::text`, on fuel for the digits.
unfoldable pub decimal_from : ℕ → ℕ → List ℕ → List ℕ
decimal_from zero n acc = acc
decimal_from (suc f) n acc =
    let rest = decimal_from f (n / 10) ((b'0' + n % 10) ∷ acc) in
    if ltb n 10 then (b'0' + n) ∷ acc else rest

-- An `integer` has ten digits at most.
unfoldable pub decimal : ℕ → List ℕ
unfolding decimal_from
decimal n = decimal_from 10 n []

abbrev pub take : ℕ → List ℕ → List ℕ
take zero xs = []
take (suc n) [] = []
take (suc n) (x ∷ xs) = x ∷ take n xs

abbrev pub fill : ℕ → List ℕ → List ℕ
fill zero s = s
fill (suc k) s = b'0' ∷ fill k s

-- `lpad(s, k, '0')`: filled on the left, or cut off on the right.
unfoldable pub lpad : ℕ → List ℕ → List ℕ
lpad k s = fill (k - length s) (take k s)

unfoldable pub lpad_five : ℕ → List ℕ
unfolding decimal lpad
lpad_five n = lpad 5 (decimal n)
