-- ===== src/Numbering/Counter.antt =====
-- Each financial year and document type counts for itself, one by one.
use vrindavan.Base.{
  true, false, ℕ, ◌+◌, ◌≡◌, refl, inl, inr, Bool, false, ◌&&◌, ◌++◌, String, none, some, List, [],
  ◌∷◌, arith, ◌==◌, find_where, update_where, if◌then◌else◌, Option-cases,
}
use vrindavan.Exec.{ok}
use vrindavan.Db.{Db, SequenceRow, DocumentType}
use vrindavan.Numbering.{first_sequence, next_sequence, same_sequence, bump_sequence, type_code}

-- The last number given out, 0 before the first.
abbrev pub last_number_of : ℕ → DocumentType → List SequenceRow → ℕ
last_number_of fy t rows = elim (find_where (same_sequence fy t) rows) [
  | none ↦ 0
  | some s ↦ s.last_number
]

abbrev pub same_counter : ℕ → DocumentType → ℕ → DocumentType → Bool
same_counter fy t fy' t' = fy == fy' && type_code t == type_code t'

same_sequence-counter :
    (fy fy' : ℕ) (t t' : DocumentType) (x : SequenceRow)
    → same_sequence fy t x ≡ true
    → same_sequence fy' t' x ≡ same_counter fy t fy' t'
unfolding same_sequence
same_sequence-counter fy fy' t t' x h = ground arith

same_sequence-bump :
    (fy : ℕ) (t : DocumentType) (x : SequenceRow)
    → same_sequence fy t (bump_sequence x) ≡ same_sequence fy t x
unfolding same_sequence bump_sequence
same_sequence-bump fy t x = refl

same_counter_symm :
    (fy fy' : ℕ) (t t' : DocumentType) → same_counter fy t fy' t' ≡ same_counter fy' t' fy t
same_counter_symm fy fy' t t' = ground arith

-- An update leaves the counters of other years and types alone.
last_number_of-other :
    (fy fy' : ℕ) (t t' : DocumentType) (rows : List SequenceRow)
    → same_counter fy t fy' t' ≡ false
    → last_number_of fy' t' (update_where (same_sequence fy t) bump_sequence rows)
      ≡ last_number_of fy' t' rows
last_number_of-other fy fy' t t' [] h = refl
last_number_of-other fy fy' t t' (x ∷ rows) h = ground (
  arith,
  same_sequence-counter fy fy' t t' x,
  same_sequence-bump fy' t' x,
  last_number_of-other fy fy' t t' rows,
)

last_number_of-bump :
    (fy fy' : ℕ) (t t' : DocumentType) (rows : List SequenceRow) {r : SequenceRow}
    → find_where (same_sequence fy t) rows ≡ some r
    → last_number_of fy' t' (update_where (same_sequence fy t) bump_sequence rows)
      ≡ (if same_counter fy t fy' t' then r.last_number + 1 else last_number_of fy' t' rows)
unfolding bump_sequence
last_number_of-bump fy fy' t t' [] h = cc
last_number_of-bump fy fy' t t' (x ∷ rows) {r} h = ground (
  arith,
  same_sequence-counter fy fy' t t' x,
  same_sequence-counter fy' fy t' t x,
  same_sequence-bump fy' t' x,
  last_number_of-other fy fy' t t' rows,
  last_number_of-bump fy fy' t t' rows {r = r},
)

last_number_of-append :
    (fy fy' : ℕ) (t t' : DocumentType) (r : SequenceRow) (rows : List SequenceRow)
    → find_where (same_sequence fy t) rows ≡ none
    → same_sequence fy t r ≡ true
    → last_number_of fy' t' (rows ++ r ∷ [])
      ≡ (if same_counter fy t fy' t' then r.last_number else last_number_of fy' t' rows)
last_number_of-append fy fy' t t' r [] h a = ground (arith, same_sequence-counter fy fy' t t' r a)
last_number_of-append fy fy' t t' r (x ∷ rows) h a = ground (
  arith,
  same_sequence-counter fy' fy t' t x,
  same_counter_symm fy fy' t t',
  last_number_of-append fy fy' t t' r rows,
)

same_sequence-first :
    (fy : ℕ) (t : DocumentType) (prefix : String)
    → same_sequence fy t (first_sequence fy t prefix) ≡ true
unfolding same_sequence
same_sequence-first fy t prefix = ground arith

-- Drawing a number for a year and a type returns the successor of the last one, and counts up that
-- counter and no other.
pub next_sequence-counts :
    (fy fy' : ℕ) (t t' : DocumentType) (prefix : String) (s : Db)
    → ((next_sequence fy t prefix s).0 ≡ ok (last_number_of fy t s.sequences + 1))
      × (last_number_of fy' t' (next_sequence fy t prefix s).1.sequences ≡ (
          if same_counter fy t fy' t'
          then last_number_of fy t s.sequences + 1
          else last_number_of fy' t' s.sequences))
unfolding next_sequence
next_sequence-counts fy fy' t t' prefix s =
    elim (Option-cases (find_where (same_sequence fy t) s.sequences)) [
      | inl fresh ↦
          rw (fresh, next_sequence)
            (
              ground arith,
              ground (
                arith,
                last_number_of-append fy fy' t t' (first_sequence fy t prefix) s.sequences fresh
                    (same_sequence-first fy t prefix),
              ),
            )
      | inr (r, old) ↦
          rw (old, next_sequence)
            (ground arith, ground (arith, last_number_of-bump fy fy' t t' s.sequences {r = r} old))
    ]
