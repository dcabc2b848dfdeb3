-- ===== src/Shamir/Raw/Products.antt =====
-- The inner loop of combineRaw: the products over all the points but one.
use secretstash.Base.{
  ℕ, suc, ◌+◌, ◌<◌, ◌≡◌, sym, ap, ap₂, ◌∙◌, subst, bit_xor, [], ◌∷◌, ◌++◌, Bytes, length, All,
  All-middle, arith, ◌==◌, true, false,
}
use secretstash.Base.Bits.{xor_comm}
use secretstash.Shamir.Gf.{gf_mul, gf_inv}
use secretstash.Shamir.Gf.Linear.{gf_mul-lt}
use secretstash.Shamir.Gf.Laws.{gf_mul_assoc, gf_mul_comm, one-gf_mul}
use secretstash.Shamir.Gf.Instance.{gf, IsUnit}
use secretstash.Shamir.Lagrange.{Apart, Distinct, basis}
use secretstash.Shamir.Lagrange.Product.{product, differences, basis-quotient}
use secretstash.Shamir.Raw.{products}

abbrev times : ℕ → Bytes → ℕ
times a xs = gf_mul a (product gf xs)

gf_mul-one : (a : ℕ) → a < 256 → gf_mul a 1 ≡ a
gf_mul-one a h = gf_mul_comm a 1 ∙ one-gf_mul a h

-- Past the i-th point, every point is a factor.
products_after :
    (i x j : ℕ) (ys : Bytes) (num den : ℕ)
    → i < j
    → num < 256
    → den < 256
    → products i x j ys num den ≡ (times num ys, times den (differences gf x ys))
unfolding products product differences
products_after i x j [] num den h p q =
    ap₂ (λ (a b : ℕ). (a, b)) (sym (gf_mul-one num p)) (sym (gf_mul-one den q))
products_after i x j (y ∷ ys) num den h p q =
    let e : (j == i) ≡ false = ground arith in
    rw e (
      products_after i x (suc j) ys (gf_mul num y) (gf_mul den (bit_xor x y)) (omega arith)
        (gf_mul-lt num y) (gf_mul-lt den (bit_xor x y))
      ∙ ap₂ (λ (a b : ℕ). (a, b)) (gf_mul_assoc num y (product gf ys))
          (gf_mul_assoc den (bit_xor x y) (product gf (differences gf x ys))))

-- The loop skips the i-th point and multiplies the others.
products_lem :
    (i x j : ℕ) (pre ys : Bytes) (num den : ℕ)
    → i ≡ j + length pre
    → num < 256
    → den < 256
    → products i x j (pre ++ x ∷ ys) num den
      ≡ (times num (pre ++ ys), times den (differences gf x (pre ++ ys)))
unfolding products product differences
products_lem i x j [] ys num den h p q =
    let e : (j == i) ≡ true = ground arith in
    rw (e, products) (products_after i x (suc j) ys num den (omega arith) p q)
products_lem i x j (y ∷ pre) ys num den h p q =
    let e : (j == i) ≡ false = ground arith in
    rw (e, products)
      (products_lem i x (suc j) pre ys (gf_mul num y) (gf_mul den (bit_xor x y)) (omega arith)
          (gf_mul-lt num y) (gf_mul-lt den (bit_xor x y))
        ∙ ap₂ (λ (a b : ℕ). (a, b)) (gf_mul_assoc num y (product gf (pre ++ ys)))
            (gf_mul_assoc den (bit_xor x y) (product gf (differences gf x (pre ++ ys)))))

product-lt : (xs : Bytes) → product gf xs < 256
unfolding product
product-lt [] = omega arith
product-lt (x ∷ xs) = gf_mul-lt x (product gf xs)

Distinct-middle :
    (pre : Bytes) (x : ℕ) (ys : Bytes) → Distinct gf (pre ++ x ∷ ys) → All (Apart gf x) (pre ++ ys)
Distinct-middle [] x ys d = d.0
Distinct-middle (p ∷ pre) x ys d = (
  subst IsUnit (xor_comm p x) (All-middle (Apart gf p) pre x ys d.0).0,
  Distinct-middle pre x ys d.1,
)

-- The factor of one point is its basis polynomial.
pub basis-products :
    (pre : Bytes) (x : ℕ) (ys : Bytes)
    → Distinct gf (pre ++ x ∷ ys)
    → (let (num, den) = products (length pre) x 0 (pre ++ x ∷ ys) 1 1 in gf_mul num (gf_inv den))
      ≡ basis gf x (pre ++ ys)
basis-products pre x ys d =
    ap (λ (t : ℕ × ℕ). gf_mul t.0 (gf_inv t.1))
      (products_lem (length pre) x 0 pre ys 1 1 (omega arith) (omega arith) (omega arith))
    ∙ ap₂ (λ a b. gf_mul a (gf_inv b)) (one-gf_mul _ (product-lt _)) (one-gf_mul _ (product-lt _))
    ∙ basis-quotient gf x (pre ++ ys) (Distinct-middle pre x ys d)
