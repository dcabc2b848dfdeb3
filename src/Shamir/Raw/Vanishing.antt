-- ===== src/Shamir/Raw/Vanishing.antt =====
-- Polynomials of bytes with given zeros, and the masks that keep the values of a polynomial at given points.
use secretstash.Base.{
  ℕ, zero, suc, ◌<◌, ◌≤◌, ◌≡◌, refl, sym, ap, ap₂, ◌∙◌, subst, bit_xor, [], ◌∷◌, Bytes, length,
  replicate, length-replicate, All, arith,
}
use secretstash.Base.Bits.{xor_assoc, xor_self, xor-zero, xor-lt_byte}
use secretstash.Shamir.Codec.{IsBytes}
use secretstash.Shamir.Field
use secretstash.Shamir.Field.{Field}
use secretstash.Shamir.Gf.{gf_mul, gf_inv, gf_eval}
use secretstash.Shamir.Gf.Linear.{gf_mul-lt}
use secretstash.Shamir.Gf.Laws.{gf_mul_assoc, gf_mul-gf_inv, one-gf_mul}
use secretstash.Shamir.Gf.Instance.{gf, IsUnit}

-- The coefficients behind the constant term of (X + x) * (e + X * es).
times_root : ℕ → ℕ → Bytes → Bytes
times_root x e [] = e ∷ []
times_root x e (f ∷ fs) = bit_xor e (gf_mul x f) ∷ times_root x f fs

length-times_root : (x e : ℕ) (es : Bytes) → length (times_root x e es) ≡ suc (length es)
unfolding times_root
length-times_root x e [] = refl
length-times_root x e (f ∷ fs) = ap suc (length-times_root x f fs)

times_root-IsBytes : (x e : ℕ) (es : Bytes) → e < 256 → IsBytes es → IsBytes (times_root x e es)
unfolding times_root
times_root-IsBytes x e [] h b = (h, tt)
times_root-IsBytes x e (f ∷ fs) h b =
    (xor-lt_byte e (gf_mul x f) h (gf_mul-lt x f), times_root-IsBytes x f fs b.0 b.1)

module _ (k : Field) where
  open k use {F, add, mul, add_assoc, add_comm, mul_assoc, mul_comm, mul-add}

  root_step :
      (p q x w e f : F)
      → add (mul (add p (mul x q)) w) (add e (mul x f))
        ≡ add (add (mul p w) e) (mul x (add (mul q w) f))
  root_step p q x w e f = simp (
    Field.add-mul k,
    mul-add,
    add_assoc,
    add_comm,
    Field.add_left_comm k,
    mul_assoc,
    mul_comm,
    Field.mul_left_comm k,
  )

  root_product :
      (q x w e : F)
      → add (mul (add (add (mul q w) e) (mul x q)) w) (mul x e) ≡ mul (add x w) (add (mul q w) e)
  root_product q x w e = simp (
    Field.add-mul k,
    mul-add,
    add_assoc,
    add_comm,
    Field.add_left_comm k,
    mul_assoc,
    mul_comm,
    Field.mul_left_comm k,
  )

gf_eval-times_root :
    (x e : ℕ) (es : Bytes) (w : ℕ)
    → gf_eval (times_root x e es) w ≡ bit_xor (gf_eval (e ∷ es) w) (gf_mul x (gf_eval es w))
unfolding times_root gf_eval
gf_eval-times_root x e [] w =
    sym (ap (bit_xor (bit_xor (gf_mul 0 w) e)) (Field.mul-zero gf x) ∙ xor-zero _)
gf_eval-times_root x e (f ∷ fs) w =
    ap (λ t. bit_xor (gf_mul t w) (bit_xor e (gf_mul x f))) (gf_eval-times_root x f fs w)
    ∙ root_step gf (gf_eval (f ∷ fs) w) (gf_eval fs w) x w e f

-- The product has the value of a product.
product-times_root :
    (x e : ℕ) (es : Bytes) (w : ℕ)
    → gf_eval (gf_mul x e ∷ times_root x e es) w ≡ gf_mul (bit_xor x w) (gf_eval (e ∷ es) w)
unfolding gf_eval
product-times_root x e es w =
    ap (λ t. bit_xor (gf_mul t w) (gf_mul x e)) (gf_eval-times_root x e es w)
    ∙ root_product gf (gf_eval es w) x w e

-- The coefficients behind the constant term d of a polynomial with m of them and these zeros.
pub vanish : ℕ → ℕ → Bytes → Bytes
unfolding times_root
vanish d m [] = replicate m 0
vanish d zero (x ∷ xs) = []
vanish d (suc m) (x ∷ xs) = let e = gf_mul (gf_inv x) d in times_root x e (vanish e m xs)

still_zero :
    (x e : ℕ) (es xs : Bytes)
    → All (λ w. gf_eval (e ∷ es) w ≡ 0) xs
    → All (λ w. gf_eval (gf_mul x e ∷ times_root x e es) w ≡ 0) xs
still_zero x e es [] h = tt
still_zero x e es (w ∷ xs) h = (
  product-times_root x e es w ∙ ap (gf_mul (bit_xor x w)) h.0 ∙ Field.mul-zero gf (bit_xor x w),
  still_zero x e es xs h.1,
)

replicate-zero-IsBytes : (m : ℕ) → IsBytes (replicate m 0)
replicate-zero-IsBytes zero = tt
replicate-zero-IsBytes (suc m) = (omega arith, replicate-zero-IsBytes m)

pub length-vanish : (d m : ℕ) (xs : Bytes) → length (vanish d m xs) ≡ m
unfolding vanish
length-vanish d m [] = length-replicate m 0
length-vanish d zero (x ∷ xs) = refl
length-vanish d (suc m) (x ∷ xs) =
    let e = gf_mul (gf_inv x) d in
    length-times_root x e (vanish e m xs) ∙ ap suc (length-vanish e m xs)

pub vanish-IsBytes : (d m : ℕ) (xs : Bytes) → IsBytes (vanish d m xs)
unfolding vanish
vanish-IsBytes d m [] = replicate-zero-IsBytes m
vanish-IsBytes d zero (x ∷ xs) = tt
vanish-IsBytes d (suc m) (x ∷ xs) =
    let e = gf_mul (gf_inv x) d in
    times_root-IsBytes x e (vanish e m xs) (gf_mul-lt (gf_inv x) d) (vanish-IsBytes e m xs)

gf_eval-vanish :
    (d m : ℕ) (xs : Bytes)
    → d < 256
    → length xs ≤ m
    → All IsUnit xs
    → All (λ x. gf_eval (d ∷ vanish d m xs) x ≡ 0) xs
unfolding vanish
gf_eval-vanish d m [] h n u = tt
gf_eval-vanish d zero (x ∷ xs) h n u = absurd (omega arith)
gf_eval-vanish d (suc m) (x ∷ xs) h n u =
    let e = gf_mul (gf_inv x) d in
    let es = vanish e m xs in
    let constant : gf_mul x e ≡ d =
      sym (gf_mul_assoc x (gf_inv x) d)
      ∙ ap (λ t. gf_mul t d) (gf_mul-gf_inv x u.0)
      ∙ one-gf_mul d h in
    subst (λ c. All (λ w. gf_eval (c ∷ times_root x e es) w ≡ 0) (x ∷ xs)) constant
      (
        product-times_root x e es x
            ∙ ap (λ t. gf_mul t (gf_eval (e ∷ es) x)) (xor_self x)
            ∙ Field.zero-mul gf (gf_eval (e ∷ es) x),
        still_zero x e es xs (gf_eval-vanish e m xs (gf_mul-lt (gf_inv x) d) (omega arith) u.1),
      )

-- The exclusive or of bytes with a mask, as far as the mask goes: for polynomials with as many
-- coefficients it is their sum.
pub sum : Bytes → Bytes → Bytes
sum [] ds = []
sum (c ∷ cs) [] = c ∷ cs
sum (c ∷ cs) (d ∷ ds) = bit_xor c d ∷ sum cs ds

pub length-sum : (cs ds : Bytes) → length (sum cs ds) ≡ length cs
unfolding sum
length-sum [] ds = refl
length-sum (c ∷ cs) [] = refl
length-sum (c ∷ cs) (d ∷ ds) = ap suc (length-sum cs ds)

pub sum-IsBytes : (cs ds : Bytes) → IsBytes cs → IsBytes ds → IsBytes (sum cs ds)
unfolding sum
sum-IsBytes [] ds b b' = tt
sum-IsBytes (c ∷ cs) [] b b' = b
sum-IsBytes (c ∷ cs) (d ∷ ds) b b' = (xor-lt_byte c d b.0 b'.0, sum-IsBytes cs ds b.1 b'.1)

-- To mask twice is to change nothing.
pub sum_twice : (cs ds : Bytes) → sum (sum cs ds) ds ≡ cs
unfolding sum
sum_twice [] ds = refl
sum_twice (c ∷ cs) [] = refl
sum_twice (c ∷ cs) (d ∷ ds) =
    ap₂ ◌∷◌ (xor_assoc c d d ∙ ap (bit_xor c) (xor_self d) ∙ xor-zero c) (sum_twice cs ds)

gf_eval-sum :
    (cs ds : Bytes) (w : ℕ)
    → length cs ≡ length ds
    → gf_eval (sum cs ds) w ≡ bit_xor (gf_eval cs w) (gf_eval ds w)
unfolding sum gf_eval
gf_eval-sum [] [] w h = refl
gf_eval-sum [] (d ∷ ds) w h = absurd (omega arith)
gf_eval-sum (c ∷ cs) [] w h = absurd (omega arith)
gf_eval-sum (c ∷ cs) (d ∷ ds) w h =
    ap (λ t. bit_xor (gf_mul t w) (bit_xor c d)) (gf_eval-sum cs ds w (omega arith))
    ∙ ap (λ t. bit_xor t (bit_xor c d)) (Field.add-mul gf (gf_eval cs w) (gf_eval ds w) w)
    ∙ Field.add_interchange gf (gf_mul (gf_eval cs w) w) (gf_mul (gf_eval ds w) w) c d

-- A polynomial that is masked with the one that vanishes at these points has the same values there, and the
-- other constant term.
pub gf_eval-masked :
    (c : ℕ) (cs : Bytes) (t m : ℕ) (xs : Bytes)
    → c < 256
    → t < 256
    → length cs ≡ m
    → length xs ≤ m
    → All IsUnit xs
    → All (λ x. gf_eval (t ∷ sum cs (vanish (bit_xor c t) m xs)) x ≡ gf_eval (c ∷ cs) x) xs
unfolding sum
gf_eval-masked c cs t m xs h g len n u =
    equal (vanish (bit_xor c t) m xs) (len ∙ sym (length-vanish (bit_xor c t) m xs)) xs
      (gf_eval-vanish (bit_xor c t) m xs (xor-lt_byte c t h g) n u)
  where
    equal :
        (ds : Bytes)
        → length cs ≡ length ds
        → (ys : Bytes) → All (λ w. gf_eval (bit_xor c t ∷ ds) w ≡ 0) ys
        → All (λ x. gf_eval (t ∷ sum cs ds) x ≡ gf_eval (c ∷ cs) x) ys
    equal ds len [] z = tt
    equal ds len (y ∷ ys) z = (
      ap (λ t'. gf_eval (t' ∷ sum cs ds) y) (sym (Field.add_cancel gf c t))
          ∙ gf_eval-sum (c ∷ cs) (bit_xor c t ∷ ds) y (ap suc len)
          ∙ ap (bit_xor (gf_eval (c ∷ cs) y)) z.0
          ∙ xor-zero (gf_eval (c ∷ cs) y),
      equal ds len ys z.1,
    )
