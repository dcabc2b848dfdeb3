-- ===== src/Shamir/Gf/Laws.antt =====
-- The bytes with exclusive or and gfMul are a field, and gfInv is its inverse.
use secretstash.Base.{
  ℕ, zero, suc, ◌*◌, ◌/◌, ◌%◌, ◌^◌, ◌<◌, bit_xor, ◌≡◌, ◌≢◌, refl, sym, ap, ap₂, ◌∙◌, arith, ◌==◌,
  ==_iff, true, ◌||◌, dec_lt,
}
use secretstash.Base.Bits.{all_below, all_below_sound, xor_self}
use secretstash.Shamir.Gf.{u8, gf_mul, gf_inv_loop, gf_inv}
use secretstash.Shamir.Gf.Linear.{
  gf_mul-xor_left, gf_mul-xor_right, gf_mul-u8_left, gf_mul-u8_right,
}

-- A function on bytes that respects the sum.
record IsLinear (f : ℕ → ℕ) : Type 0 where
  xor : (x y : ℕ) → f (bit_xor x y) ≡ bit_xor (f x) (f y)
  byte : (x : ℕ) → f (u8 x) ≡ f x

IsLinear-zero : {f : ℕ → ℕ} → IsLinear f → f 0 ≡ 0
IsLinear-zero {f} h = h.xor 0 0 ∙ xor_self (f 0)

abbrev digit : ℕ → ℕ → ℕ
digit i x = x / 2 ^ i % 2 * 2 ^ i

-- The sum of the lowest n digits.
low_digits : ℕ → ℕ → ℕ
low_digits zero x = 0
low_digits (suc n) x = bit_xor (digit n x) (low_digits n x)

digits_table : all_below 256 (λ x. low_digits 8 x == x) ≡ true
unfolding all_below low_digits
digits_table = refl

module _ {f g : ℕ → ℕ} (hf : IsLinear f) (hg : IsLinear g) where
  same_digit : (i x : ℕ) → f (2 ^ i) ≡ g (2 ^ i) → f (digit i x) ≡ g (digit i x)
  same_digit i x h = elim (dec_lt (x / 2 ^ i % 2) 1) [
    | yes p ↦
        let e : x / 2 ^ i % 2 ≡ 0 = omega arith in
        rw e (
          rw (let z : 0 * 2 ^ i ≡ 0 = omega arith in z) (IsLinear-zero hf ∙ sym (IsLinear-zero hg)))
    | no p ↦
        let e : x / 2 ^ i % 2 ≡ 1 = omega arith in
        rw e (rw (let z : 1 * 2 ^ i ≡ 2 ^ i = omega arith in z) h)
  ]

  same_low_digits :
      (n x : ℕ)
      → ((i : ℕ) → i < n → f (2 ^ i) ≡ g (2 ^ i))
      → f (low_digits n x) ≡ g (low_digits n x)
  unfolding low_digits
  same_low_digits zero x h = IsLinear-zero hf ∙ sym (IsLinear-zero hg)
  same_low_digits (suc n) x h =
      hf.xor _ _
      ∙ ap₂ bit_xor (same_digit n x (h n (omega arith)))
          (same_low_digits n x (λ i p. h i (omega arith)))
      ∙ sym (hg.xor _ _)

  -- Linear functions that agree at the powers of 2 agree.
  linear_ext : ((i : ℕ) → i < 8 → f (2 ^ i) ≡ g (2 ^ i)) → (x : ℕ) → f x ≡ g x
  linear_ext h x =
      let e = (==_iff _ _).0 (all_below_sound 256 _ (u8 x) digits_table (omega arith)) in
      sym (hf.byte x) ∙ sym (ap f e) ∙ same_low_digits 8 (u8 x) h ∙ ap g e ∙ hg.byte x

IsLinear-mul_left : (c : ℕ) → IsLinear (λ x. gf_mul x c)
IsLinear-mul_left c = record { xor = λ x y. gf_mul-xor_left x y c; byte = λ x. gf_mul-u8_left x c }

IsLinear-mul_right : (c : ℕ) → IsLinear (λ x. gf_mul c x)
IsLinear-mul_right c = record { xor = gf_mul-xor_right c; byte = gf_mul-u8_right c }

IsLinear-comp : {f g : ℕ → ℕ} → IsLinear f → IsLinear g → IsLinear (λ x. f (g x))
IsLinear-comp {f} {g} hf hg = record {
  xor = λ x y. ap f (hg.xor x y) ∙ hf.xor (g x) (g y);
  byte = λ x. ap f (hg.byte x);
}

program : Unit {0}
unfolding all_below gf_inv gf_mul
program = tt

comm_table :
    all_below 8 (λ i. all_below 8 (λ j. gf_mul (2 ^ i) (2 ^ j) == gf_mul (2 ^ j) (2 ^ i))) ≡ true
unfolding program
comm_table = refl

comm_basis : (i j : ℕ) → i < 8 → j < 8 → gf_mul (2 ^ i) (2 ^ j) ≡ gf_mul (2 ^ j) (2 ^ i)
comm_basis i j p q = (==_iff _ _).0 (all_below_sound 8 _ j (all_below_sound 8 _ i comm_table p) q)

-- The product is commutative.
pub gf_mul_comm : (a b : ℕ) → gf_mul a b ≡ gf_mul b a
gf_mul_comm a b =
    linear_ext (IsLinear-mul_left b) (IsLinear-mul_right b)
      (λ i p.
        linear_ext (IsLinear-mul_right (2 ^ i)) (IsLinear-mul_left (2 ^ i))
          (λ j q. comm_basis i j p q) b)
      a

assoc_table :
    all_below 8 (λ i. all_below 8 (λ j.
      all_below 8
        (λ k. gf_mul (gf_mul (2 ^ i) (2 ^ j)) (2 ^ k) == gf_mul (2 ^ i) (gf_mul (2 ^ j) (2 ^ k)))))
    ≡ true
unfolding program
assoc_table = refl

assoc_basis :
    (i j k : ℕ)
    → i < 8
    → j < 8
    → k < 8
    → gf_mul (gf_mul (2 ^ i) (2 ^ j)) (2 ^ k) ≡ gf_mul (2 ^ i) (gf_mul (2 ^ j) (2 ^ k))
assoc_basis i j k p q r =
    (==_iff _ _).0
      (all_below_sound 8 _ k (all_below_sound 8 _ j (all_below_sound 8 _ i assoc_table p) q) r)

-- The product is associative.
pub gf_mul_assoc : (a b c : ℕ) → gf_mul (gf_mul a b) c ≡ gf_mul a (gf_mul b c)
gf_mul_assoc a b c =
    linear_ext (IsLinear-comp (IsLinear-mul_left c) (IsLinear-mul_left b))
      (IsLinear-mul_left (gf_mul b c))
      (λ i p.
        linear_ext (IsLinear-comp (IsLinear-mul_left c) (IsLinear-mul_right (2 ^ i)))
          (IsLinear-comp (IsLinear-mul_right (2 ^ i)) (IsLinear-mul_left c))
          (λ j q.
            linear_ext (IsLinear-mul_right (gf_mul (2 ^ i) (2 ^ j)))
              (IsLinear-comp (IsLinear-mul_right (2 ^ i)) (IsLinear-mul_right (2 ^ j)))
              (λ k r. assoc_basis i j k p q r) c)
          b)
      a

one_table : all_below 256 (λ a. gf_mul 1 a == a) ≡ true
unfolding program
one_table = refl

pub one-gf_mul : (a : ℕ) → a < 256 → gf_mul 1 a ≡ a
one-gf_mul a p = (==_iff _ _).0 (all_below_sound 256 _ a one_table p)

inverse_table : all_below 256 (λ a. (a == 0) || (gf_mul a (gf_inv a) == 1)) ≡ true
unfolding program
inverse_table = refl

or-split : (a x y : ℕ) → ((a == 0) || (x == y)) ≡ true → a ≢ 0 → x ≡ y
or-split a x y h n = ground arith

gf_inv-u8 : (a : ℕ) → gf_inv (u8 a) ≡ gf_inv a
unfolding gf_inv_loop gf_inv
gf_inv-u8 a = ap (gf_inv_loop 8 127 1) (gf_mul-u8_left a (u8 a) ∙ gf_mul-u8_right a a)

-- gfInv inverts every element but zero.
pub gf_mul-gf_inv : (a : ℕ) → u8 a ≢ 0 → gf_mul a (gf_inv a) ≡ 1
gf_mul-gf_inv a h =
    sym (gf_mul-u8_left a (gf_inv a))
    ∙ ap (gf_mul (u8 a)) (sym (gf_inv-u8 a))
    ∙ or-split (u8 a) _ _ (all_below_sound 256 _ (u8 a) inverse_table (omega arith)) h

pub gf_inv_zero : gf_inv 0 ≡ 0
unfolding program
gf_inv_zero = refl
