-- ===== src/Numbering/Collision.antt =====
-- Where document numbers are told apart, and where `lpad` cuts them down to the same text.
use mathlib.Core.List.{append_cancel_left}
use vrindavan.Base.{
  ℕ, ◌+◌, ◌*◌, ◌/◌, ◌%◌, ◌≤◌, ◌<◌, ◌≡◌, ◌≢◌, List, [], ◌∷◌, String, arith, sym, ◌∙◌,
}
use vrindavan.Numbering.{codes, lpad_five, number_text}

unfoldable pub five_digits : ℕ → List ℕ
five_digits n =
    (48 + n / 10000)
    ∷ (48 + n / 1000 % 10)
    ∷ (48 + n / 100 % 10)
    ∷ (48 + n / 10 % 10)
    ∷ (48 + n % 10)
    ∷ []

pub lpad_five-small : (n : ℕ) → n < 100000 → lpad_five n ≡ five_digits n
unfolding lpad_five five_digits
lpad_five-small n h = ground arith

-- The first five of six digits are those of the tenth.
lpad_five-six : (m d : ℕ) → 10000 ≤ m → m < 100000 → d < 10 → lpad_five (10 * m + d) ≡ five_digits m
unfolding lpad_five five_digits
lpad_five-six m d lo hi h = ground arith

five_digits-injective : (m n : ℕ) → m < 100000 → n < 100000 → five_digits m ≡ five_digits n → m ≡ n
unfolding five_digits
five_digits-injective m n hm hn e = ground arith

-- Below 100,000 two numbers of one prefix and year are different texts.
pub number_text-injective :
    (prefix : String) (year : List ℕ) (m n : ℕ)
    → m < 100000
    → n < 100000
    → number_text prefix year m ≡ number_text prefix year n
    → m ≡ n
unfolding number_text
number_text-injective prefix year m n hm hn e = five_digits-injective m n hm hn (
    sym (lpad_five-small m hm)
    ∙ append_cancel_left (codes "-") _ _ (
        append_cancel_left year _ _
          (append_cancel_left (codes "-") _ _ (append_cancel_left (codes prefix) _ _ e)))
    ∙ lpad_five-small n hn)

-- Below 100,000, two numbers of one prefix and year are printed differently.
pub number_text-distinct :
    (prefix : String) (year : List ℕ) (m n : ℕ)
    → m < 100000
    → n < 100000
    → m ≢ n
    → number_text prefix year m ≢ number_text prefix year n
number_text-distinct prefix year m n hm hn ne e = ne (number_text-injective prefix year m n hm hn e)

-- From 100,000 to 999,999, ten numbers in turn have the text of an earlier one: that of their first
-- five digits.
pub number_text-collides :
    (prefix : String) (year : List ℕ) (m d : ℕ)
    → 10000 ≤ m
    → m < 100000
    → d < 10
    → number_text prefix year (10 * m + d) ≡ number_text prefix year m
unfolding number_text
number_text-collides prefix year m d lo hi h = rw (lpad_five-six m d lo hi h, lpad_five-small m hi)
