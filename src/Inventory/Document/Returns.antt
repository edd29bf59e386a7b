-- ===== src/Inventory/Document/Returns.antt =====
-- When approving a document returns: a draft whose every line can be posted.
use vrindavan.Base.{
  ℕ, ◌≡◌, refl, ap, ◌∙◌, Bool, true, false, some, List, [], ◌∷◌, All, find_where, update_where,
}
use vrindavan.Exec.{Result, ok, err, for_each, continue, roll_back}
use vrindavan.Exec.Within.{Within, Post}
use vrindavan.Db.{Db, Trx, Error}
use vrindavan.Tables.{has_id}
use vrindavan.Stock.Frame.{OnlyStock}
use vrindavan.Inventory.Document.{Document, lines_for, approval, approve_document}
use vrindavan.Inventory.Document.Laws.{IsDocument, approval_open, finish, find-stamped}

abbrev pub is_ok : {A : Type 0} → Result Error A → Bool
is_ok (ok a) = true
is_ok (err e) = false

-- A run that returned, in a state that `I` holds of.
abbrev pub Returned : {A : Type 0} → (Db → Type 0) → Result Error A × Db → Type 0
Returned I (r, t) = (is_ok r ≡ true) × I t

module _ (I J : Db → Type 0) {A B : Type 0} where
  pub Returned-continue :
      (r : Result Error A × Db) (f : A → Trx B)
      → Returned I r
      → ((a : A) (t : Db) → I t → Returned J (f a t))
      → Returned J (continue r f)
  Returned-continue (ok a, t) f h k = k a t h.1
  Returned-continue (err e, t) f h k = absurd (cc h.0)

pub Returned-roll_back :
    {A : Type 0} (I : Db → Type 0) (s : Db) (r : Result Error A × Db)
    → Returned I r
    → Returned I (roll_back s r)
Returned-roll_back I s (ok a, t) h = h
Returned-roll_back I s (err e, t) h = absurd (cc h.0)

pub Returned-weaken :
    {A : Type 0} (I J : Db → Type 0) (r : Result Error A × Db)
    → ((u : Db) → I u → J u)
    → Returned I r
    → Returned J r
Returned-weaken I J (r, t) k h = (h.0, k t h.1)

-- `I` is what holds with these lines still to go.
module _ {L : Type 0} (I : List L → Db → Type 0) (f : L → Trx (Unit {0}))
    (step : (l : L) (ls : List L) (s : Db) → I (l ∷ ls) s → Returned (I ls) (f l s)) where
  for_each-Returned : (ls : List L) (s : Db) → I ls s → Returned (I []) (for_each ls f s)
  unfolding for_each
  for_each-Returned [] s i = (refl, i)
  for_each-Returned (l ∷ ls) s i =
      Returned-continue (I ls) (I []) (f l s) (λ _. for_each ls f) (step l ls s i)
        (λ a t. for_each-Returned ls t)

module _ {H L : Type 0} (doc : Document H L) (laws : IsDocument doc)
    (post_line : H → L → Trx (Unit {0})) (stamp : H → H)
    (stamp_id : (h : H) → doc.headers.id_of (stamp h) ≡ doc.headers.id_of h) where
  finish-Returned :
      (id : ℕ) (ls : List L) (s t : Db) {h : H}
      → find_where (has_id doc.headers id) (doc.headers.rows s) ≡ some h
      → doc.headers.rows t ≡ doc.headers.rows s
      → Returned (λ u. Unit) (finish doc post_line stamp id ls t)
  finish-Returned id ls s t {h} found same = rw stamped (refl, tt)
    where
      stamped :
          find_where (has_id doc.headers id) (
            doc.headers.rows
              (doc.headers.put (update_where (has_id doc.headers id) stamp (doc.headers.rows t)) t))
          ≡ some (stamp h)
      stamped =
          ap (find_where (has_id doc.headers id)) (laws.rows-put _ t)
          ∙ find-stamped doc stamp stamp_id id (doc.headers.rows t)
              (ap (find_where (has_id doc.headers id)) same ∙ found)

  -- What holds of the lines of a draft lets each of them be posted in turn, and says that the
  -- headers are as they were.
  pub approval-in_turn :
      (I : List L → Db → Type 0) (id : ℕ) (s : Db) (h : H)
      → ((l : L) (ls : List L) (t : Db) → I (l ∷ ls) t → Returned (I ls) (post_line h l t))
      → ((t : Db) → I [] t → doc.headers.rows t ≡ doc.headers.rows s)
      → I (lines_for doc id s) s
      → find_where (has_id doc.headers id) (doc.headers.rows s) ≡ some h
      → doc.is_draft h ≡ true
      → Returned (λ u. Unit) (approval doc post_line stamp id s)
  approval-in_turn I id s h posts same i found draft =
      rw (approval_open doc post_line stamp id s found draft) (
        Returned-continue (I []) (λ u. Unit) (for_each (lines_for doc id s) (post_line h) s) _
          (for_each-Returned I (post_line h) posts (lines_for doc id s) s i)
          (λ a t g. finish-Returned id (lines_for doc id s) s t found (same t g)))

module _ {H L : Type 0} (doc : Document H L) (laws : IsDocument doc)
    (post_line : H → L → Trx (Unit {0})) (stamp : H → H)
    (stamp_id : (h : H) → doc.headers.id_of (stamp h) ≡ doc.headers.id_of h)
    (only_stock : (h : H) (l : L) → Within OnlyStock (post_line h l)) where
  -- `I`, and the headers as they were.
  abbrev Going : (Db → Type 0) → Db → Db → Type 0
  Going I s t = I t × (doc.headers.rows t ≡ doc.headers.rows s)

  combine :
      {A : Type 0} (I : Db → Type 0) (s t : Db) (r : Result Error A × Db)
      → doc.headers.rows t ≡ doc.headers.rows s
      → Returned I r
      → Post OnlyStock t r
      → Returned (Going I s) r
  combine I s t (ok a, u) same h o =
      (h.0, (h.1, ap doc.headers.rows o ∙ laws.rows-with_stock t u ∙ same))
  combine I s t (err e, u) same h o = absurd (cc h.0)

  -- A draft is approved, where what holds of its lines lets each of them be posted in turn.
  pub approve_document-in_turn :
      (I : List L → Db → Type 0) (id : ℕ) (s : Db) (h : H)
      → ((l : L) (ls : List L) (t : Db) → I (l ∷ ls) t → Returned (I ls) (post_line h l t))
      → I (lines_for doc id s) s
      → find_where (has_id doc.headers id) (doc.headers.rows s) ≡ some h
      → doc.is_draft h ≡ true
      → is_ok (approve_document doc post_line stamp id s).0 ≡ true
  unfolding approve_document
  approve_document-in_turn I id s h posts i found draft =
      (Returned-roll_back (λ u. Unit) s (approval doc post_line stamp id s)
        (approval-in_turn doc laws post_line stamp stamp_id (λ ls. Going (I ls) s) id s h
          (λ l ls t g.
            combine (I ls) s t (post_line h l t) g.1 (posts l ls t g.0) ((only_stock h l).at t))
          (λ t g. g.1) (i, refl) found draft)).0

  pub approve_document-Returned :
      (I : Db → Type 0) (Fits : H → L → Type 0)
      → ((h : H) (l : L) (s : Db) → Fits h l → I s → Returned I (post_line h l s))
      → (id : ℕ) (s : Db) {h : H} → I s
      → find_where (has_id doc.headers id) (doc.headers.rows s) ≡ some h
      → doc.is_draft h ≡ true
      → All (Fits h) (lines_for doc id s)
      → is_ok (approve_document doc post_line stamp id s).0 ≡ true
  approve_document-Returned I Fits posts id s {h} i found draft fit =
      approve_document-in_turn (λ ls t. I t × All (Fits h) ls) id s h
        (λ l ls t g.
          Returned-weaken I (λ u. I u × All (Fits h) ls) (post_line h l t) (λ u k. (k, g.1.1))
            (posts h l t g.1.0 g.0))
        (i, fit) found draft

pub every_line : {L : Type 0} (ls : List L) → All (λ l. Unit {0}) ls
every_line [] = tt
every_line (l ∷ ls) = (tt, every_line ls)
