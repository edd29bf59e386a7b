-- ===== src/Stock/Dims.antt =====
-- When two rows stand for the same stock: the NULL-safe match of stock-posting.helper.ts and of
-- database/functions/002_stock_functions.sql, which reads a missing id as the nil uuid.
use vrindavan.Base.{ℕ, ◌≡◌, ap, inl, inr, Bool, true, ◌&&◌, Option, arith, ◌==◌, get_or, Bool-cases}
use vrindavan.Db.{Dims}

-- `COALESCE(id, '00000000-0000-0000-0000-000000000000')`
unfoldable pub coalesce : Option ℕ → ℕ
coalesce o = get_or o 0

pub record Key : Type 0 where
  pub product : ℕ
  pub warehouse : ℕ
  pub rack : ℕ
  pub location : ℕ
  pub batch : ℕ

pub key : Dims → Key
unfolding coalesce
key d = record {
  product = d.product_id;
  warehouse = d.warehouse_id;
  rack = coalesce d.rack_id;
  location = coalesce d.location_id;
  batch = coalesce d.batch_id;
}

pub key_eq : Key → Key → Bool
key_eq j k =
    j.product == k.product
    && (j.warehouse == k.warehouse
        && (j.rack == k.rack && (j.location == k.location && j.batch == k.batch)))

-- The `WHERE` clause by which a balance is found.
unfoldable pub same_dims : Dims → Dims → Bool
unfolding key key_eq
same_dims a b = key_eq (key a) (key b)

key_eq→eq : (j k : Key) → key_eq j k ≡ true → j ≡ k
unfolding key_eq
key_eq→eq j k h = ground arith

key_eq_refl : (k : Key) → key_eq k k ≡ true
unfolding key_eq
key_eq_refl k = ground arith

pub same_dims_refl : (a : Dims) → same_dims a a ≡ true
unfolding same_dims
same_dims_refl a = key_eq_refl (key a)

-- Rows of the same stock agree on every third row.
pub same_dims-left : (a b c : Dims) → same_dims a b ≡ true → same_dims a c ≡ same_dims b c
unfolding same_dims
same_dims-left a b c h = ap (λ k. key_eq k (key c)) (key_eq→eq (key a) (key b) h)

pub same_dims-right : (a b c : Dims) → same_dims a b ≡ true → same_dims c a ≡ same_dims c b
unfolding same_dims
same_dims-right a b c h = ap (key_eq (key c)) (key_eq→eq (key a) (key b) h)

pub same_dims-product : (a b : Dims) → same_dims a b ≡ true → a.product_id ≡ b.product_id
unfolding same_dims
same_dims-product a b h = ap (λ k. k.product) (key_eq→eq (key a) (key b) h)

pub same_dims_symm : (a b : Dims) → same_dims a b ≡ same_dims b a
same_dims_symm a b = elim (Bool-cases (same_dims a b)) [
  | inl ab ↦ cc (same_dims-left a b a ab, same_dims_refl a)
  | inr ab ↦ elim (Bool-cases (same_dims b a)) [
    | inl ba ↦ cc (same_dims-left b a b ba, same_dims_refl b)
    | inr ba ↦ cc (ab, ba)
  ]
]
