-- ===== src/Inventory/Verification/Approval.antt =====
-- What completing a physical verification does (`complete` of
-- physical-verification.kysely-repository.ts).
use vrindavan.Base.{
  ℕ, ◌≡◌, refl, inl, inr, some, List, [], ◌∷◌, arith, find_where, ◌==◌, ==→eq, ◌∙◌, if◌then◌else◌,
  Bool-cases, ap,
}
use vrindavan.Exec.{ok}
use vrindavan.Exec.Within.{Post, Within, Within-weaken, Post-map}
use vrindavan.Db.{Db, Clock, Dims, VerificationRow, VerificationLineRow}
use vrindavan.Tables.{has_id, physical_verifications}
use vrindavan.Stock.Dims.{same_dims}
use vrindavan.Stock.Posting.{quantity_of, live_balance_at, post_stock_movement}
use vrindavan.Stock.Guard.{quantity_of-eq}
use vrindavan.Stock.Frame.{OnlyStock, post_stock_movement-OnlyStock}
use vrindavan.Stock.Consistent.{IsConsistent, Keeps, post_stock_movement-IsConsistent}
use vrindavan.Stock.Flow.{on_hand, on_hand-same, InputShifts, post_stock_movement-Shifts}
use vrindavan.Inventory.Document.{lines_for}
use vrindavan.Inventory.Document.Laws.{IsDocument, approve_document-IsConsistent}
use vrindavan.Inventory.Document.Lines.{approve-lines_returned}
use vrindavan.Inventory.Verification.{
  document, PhysicalVerification, line_dims, movement, post_line, complete, complete_verification,
}

pub document-IsDocument : IsDocument document
document-IsDocument = record {
  rows-put = λ xs db. refl;
  rows-with_stock = λ s t. refl;
  ledger-put = λ xs db. refl;
  balances-put = λ xs db. refl;
}

-- A line posts nothing where its target is met, and else the movement towards it.
pub post_line-Within :
    (R : Db → Db → Type 0) (clock : Clock) (h : VerificationRow) (l : VerificationLineRow)
    → ((s : Db) → l.counted_quantity ≡ on_hand (line_dims h l) s → R s s)
    → ((s : Db) (cost : ℕ)
        → Post R s (post_stock_movement clock (movement h l (on_hand (line_dims h l) s) cost) s))
    → Within R (post_line clock h l)
unfolding post_line
post_line-Within R clock h l stays posts = record { at = run }
  where
    run : (s : Db) → Post R s (post_line clock h l s)
    run s =
        let live = quantity_of-eq (line_dims h l) s.stock_balances in
        elim (Bool-cases
          (l.counted_quantity == quantity_of (live_balance_at (line_dims h l) s.stock_balances))) [
            | inl met ↦ rw met (stays s (==→eq _ _ met ∙ live))
            | inr unmet ↦ rw unmet (rw live (posts s _))
          ]

pub post_line-OnlyStock :
    (clock : Clock) (h : VerificationRow) (l : VerificationLineRow)
    → Within OnlyStock (post_line clock h l)
post_line-OnlyStock clock h l =
    post_line-Within OnlyStock clock h l (λ s met. refl)
      (λ s cost. (post_stock_movement-OnlyStock clock (movement h l _ cost)).at s)

-- Completing a physical verification keeps the invariant of the stock tables, whether it returns or throws.
pub complete_verification-IsConsistent :
    (clock : Clock) (id : ℕ) (s : Db)
    → IsConsistent s
    → IsConsistent (complete_verification clock id s).1
unfolding complete_verification
complete_verification-IsConsistent clock =
    approve_document-IsConsistent document document-IsDocument (post_line clock) (complete clock)
      (λ h l.
        post_line-Within (Keeps IsConsistent) clock h l (λ s met c. c)
          (λ s cost. (post_stock_movement-IsConsistent clock (movement h l _ cost)).at s))

-- The stock that a line is about.
abbrev pub stock_of : VerificationRow → VerificationLineRow → Dims
stock_of h l = record {
  product_id = l.product_id;
  warehouse_id = h.warehouse_id;
  rack_id = l.rack_id;
  location_id = l.location_id;
  batch_id = l.batch_id;
}

-- What the lines make of the quantity at `d`: the last line for `d` decides.
unfoldable pub settled : VerificationRow → Dims → List VerificationLineRow → ℕ → ℕ
settled h d [] q = q
settled h d (l ∷ ls) q =
    settled h d ls (if same_dims (stock_of h l) d then l.counted_quantity else q)

abbrev SettlesLine : VerificationRow → Dims → VerificationLineRow → Db → Db → Type 0
SettlesLine h d l s t =
    on_hand d t ≡ (if same_dims (line_dims h l) d then l.counted_quantity else on_hand d s)

post_line-SettlesLine :
    (clock : Clock) (d : Dims) (h : VerificationRow) (l : VerificationLineRow)
    → Within (SettlesLine h d l) (post_line clock h l)
unfolding movement
post_line-SettlesLine clock d h l =
    post_line-Within (SettlesLine h d l) clock h l
      (λ s met. ground (arith, on_hand-same (line_dims h l) d s))
      (λ s cost.
        Post-map (InputShifts (movement h l (on_hand (line_dims h l) s) cost) d) (SettlesLine h d l)
          s s (post_stock_movement clock (movement h l (on_hand (line_dims h l) s) cost) s)
          (λ t shifts. ground (arith, shifts, on_hand-same (line_dims h l) d s))
          ((post_stock_movement-Shifts clock (movement h l (on_hand (line_dims h l) s) cost) d).at
            s))

-- Completing a physical verification makes the quantity on hand at every dimension what its last line
-- for that dimension counted, whatever was there when it was drafted, and leaves the others.
pub complete_verification-on_hand :
    (clock : Clock) (id : ℕ) (s t : Db) (d : Dims) (h : VerificationRow)
    (doc : PhysicalVerification)
    → find_where (has_id physical_verifications id) s.physical_verifications ≡ some h
    → complete_verification clock id s ≡ (ok doc, t)
    → on_hand d t ≡ settled h d (lines_for document id s) (on_hand d s)
unfolding complete_verification line_dims settled
complete_verification-on_hand clock id s t d h doc found returned =
    approve-lines_returned document document-IsDocument (post_line clock) (complete clock)
      (λ ls s t. on_hand d t ≡ settled h d ls (on_hand d s)) (λ s. refl)
      (λ ls s t u r same. rw same.1 r) id s t doc
      (λ l.
        Within-weaken _ _ _ (λ s t one ls u rest. rest ∙ ap (settled h d ls) one)
          (post_line-SettlesLine clock d h l))
      found returned
