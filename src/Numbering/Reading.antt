-- ===== src/Numbering/Reading.antt =====
-- Reading a document number back (database/functions/001_document_numbering.sql): the
-- sequence number behind the prefix and the year.
use vrindavan.Base.{refl, String, ◌++◌, ℕ, ◌+◌, ◌-◌, ◌*◌, ◌<◌, ◌≡◌, List, [], ◌∷◌, arith}
use vrindavan.Numbering.Collision.{five_digits, lpad_five-small}
use vrindavan.Numbering.{codes, number_text}

-- The number that digits spell, after the digits of `n`.
abbrev pub read_from : ℕ → List ℕ → ℕ
read_from n [] = n
read_from n (c ∷ cs) = read_from (10 * n + (c - b'0')) cs

-- What is left of a text behind a heading.
abbrev after : List ℕ → List ℕ → List ℕ
after [] text = text
after (h ∷ heading) [] = []
after (h ∷ heading) (c ∷ text) = after heading text

after-append : (heading text : List ℕ) → after heading (heading ++ text) ≡ text
after-append [] text = refl
after-append (h ∷ heading) text = after-append heading text

-- The sequence number of a document number.
abbrev pub read_number : String → List ℕ → List ℕ → ℕ
read_number prefix year text =
    read_from 0 (after (codes "-") (after year (after (codes "-") (after (codes prefix) text))))

five_digits-read : (n : ℕ) → n < 100000 → read_from 0 (five_digits n) ≡ n
unfolding five_digits
five_digits-read n h = omega arith

-- Below 100,000, the sequence number can be read back from a document number of the prefix and the
-- year.
pub number_text-read :
    (prefix : String) (year : List ℕ) (n : ℕ)
    → n < 100000
    → read_number prefix year (number_text prefix year n) ≡ n
unfolding number_text
number_text-read prefix year n h =
    rw
      (
        after-append (codes prefix),
        after-append (codes "-"),
        after-append year,
        after-append (codes "-"),
        lpad_five-small n h,
      )
      (five_digits-read n h)
