-- ===== src/Shamir/Gf/Linear.antt =====
-- gfMul is additive in each argument, and so determined by its values at the powers of 2.
use secretstash.Base.{
  ℕ, zero, suc, ◌*◌, ◌/◌, ◌%◌, ◌<◌, bit_and, bit_xor, ◌≡◌, refl, sym, ap, ap₂, ◌∙◌, ◌⊎◌, inl, inr,
  arith, ◌==◌, ==_iff, true, dec_lt, ◌≡⟨◌⟩◌, ◌∎,
}
use secretstash.Base.Bits.{
  all_below, all_below_sound, xor_halves, xor_double, xor_mod_byte, xor-lt_byte, xor_interchange,
  xor_self, zero-xor, xor-zero,
}
use secretstash.Shamir.Gf.{u8, neg8, gf_shift, gf_mul_loop, gf_mul}

-- The term that a round adds: a if the low digit of b is 1, else 0.
mask : ℕ → ℕ → ℕ
mask a b = bit_and a (neg8 (bit_and b 1))

low_digit_table : all_below 256 (λ b. bit_and b 1 == b % 2) ≡ true
unfolding all_below
low_digit_table = refl

and_zero_table : all_below 256 (λ a. bit_and a 0 == 0) ≡ true
unfolding all_below
and_zero_table = refl

and_ones_table : all_below 256 (λ a. bit_and a 255 == a) ≡ true
unfolding all_below
and_ones_table = refl

bit-cases : (b : ℕ) → (b % 2 ≡ 0) ⊎ (b % 2 ≡ 1)
bit-cases b = elim (dec_lt (b % 2) 1) [ yes p ↦ inl (omega arith) | no p ↦ inr (omega arith) ]

mask-zero : (a b : ℕ) → a < 256 → b < 256 → b % 2 ≡ 0 → mask a b ≡ 0
unfolding mask
mask-zero a b p q h =
    let low = (==_iff _ _).0 (all_below_sound 256 _ b low_digit_table q) in
    rw (low ∙ h) ((==_iff _ _).0 (all_below_sound 256 _ a and_zero_table p))

mask-one : (a b : ℕ) → a < 256 → b < 256 → b % 2 ≡ 1 → mask a b ≡ a
unfolding mask
mask-one a b p q h =
    let low = (==_iff _ _).0 (all_below_sound 256 _ b low_digit_table q) in
    rw (low ∙ h) ((==_iff _ _).0 (all_below_sound 256 _ a and_ones_table p))

mask-xor_left :
    (a a' b : ℕ)
    → a < 256
    → a' < 256
    → b < 256
    → mask (bit_xor a a') b ≡ bit_xor (mask a b) (mask a' b)
mask-xor_left a a' b p p' q = elim (bit-cases b) [
  | inl h ↦
      mask-zero _ b (xor-lt_byte a a' p p') q h
      ∙ sym (ap₂ bit_xor (mask-zero a b p q h) (mask-zero a' b p' q h))
  | inr h ↦
      mask-one _ b (xor-lt_byte a a' p p') q h
      ∙ sym (ap₂ bit_xor (mask-one a b p q h) (mask-one a' b p' q h))
]

mask-xor_right :
    (a b b' : ℕ)
    → a < 256
    → b < 256
    → b' < 256
    → mask a (bit_xor b b') ≡ bit_xor (mask a b) (mask a b')
mask-xor_right a b b' p q q' = elim (bit-cases b) [
  | inl h ↦ elim (bit-cases b') [
    | inl h' ↦
        mask-zero a _ p r (omega (arith, xor_halves b b'))
        ∙ sym (ap₂ bit_xor (mask-zero a b p q h) (mask-zero a b' p q' h'))
    | inr h' ↦
        mask-one a _ p r (omega (arith, xor_halves b b'))
        ∙ sym (ap₂ bit_xor (mask-zero a b p q h) (mask-one a b' p q' h') ∙ zero-xor a)
  ]
  | inr h ↦ elim (bit-cases b') [
    | inl h' ↦
        mask-one a _ p r (omega (arith, xor_halves b b'))
        ∙ sym (ap₂ bit_xor (mask-one a b p q h) (mask-zero a b' p q' h') ∙ xor-zero a)
    | inr h' ↦
        mask-zero a _ p r (omega (arith, xor_halves b b'))
        ∙ sym (ap₂ bit_xor (mask-one a b p q h) (mask-one a b' p q' h') ∙ xor_self a)
  ]
]
  where
    r : bit_xor b b' < 256
    r = xor-lt_byte b b' q q'

-- The shift as a sum: twice a, and the reduction if the high bit is set.
abbrev reduction : ℕ → ℕ
reduction a = a / 2 / 2 / 2 / 2 / 2 / 2 / 2 * 27

shift_table : all_below 256 (λ a. gf_shift a == bit_xor (a * 2 % 256) (reduction a)) ≡ true
unfolding all_below gf_shift
shift_table = refl

shift_lem : (a : ℕ) → a < 256 → gf_shift a ≡ bit_xor (a * 2 % 256) (reduction a)
shift_lem a p = (==_iff _ _).0 (all_below_sound 256 _ a shift_table p)

high-xor :
    (a b : ℕ)
    → bit_xor a b / 2 / 2 / 2 / 2 / 2 / 2 / 2
      ≡ bit_xor (a / 2 / 2 / 2 / 2 / 2 / 2 / 2) (b / 2 / 2 / 2 / 2 / 2 / 2 / 2)
high-xor a b = simp halve
  where
    halve : (x y : ℕ) → bit_xor x y / 2 ≡ bit_xor (x / 2) (y / 2)
    halve x y = (xor_halves x y).0

reduction_digits : (t s : ℕ) → t < 2 → s < 2 → bit_xor t s * 27 ≡ bit_xor (t * 27) (s * 27)
reduction_digits zero s p q = ap (λ u. u * 27) (zero-xor s) ∙ sym (zero-xor (s * 27))
reduction_digits (suc zero) zero p q = refl
reduction_digits (suc zero) (suc zero) p q = refl
reduction_digits (suc zero) (suc (suc s)) p q = absurd (omega arith)
reduction_digits (suc (suc t)) s p q = absurd (omega arith)

gf_shift-xor :
    (a b : ℕ) → a < 256 → b < 256 → gf_shift (bit_xor a b) ≡ bit_xor (gf_shift a) (gf_shift b)
gf_shift-xor a b p q =
    gf_shift (bit_xor a b)
    ≡⟨ shift_lem _ (xor-lt_byte a b p q) ⟩ bit_xor (bit_xor a b * 2 % 256) (reduction (bit_xor a b))
    ≡⟨ ap₂ bit_xor doubles reduces ⟩
      bit_xor (bit_xor (a * 2 % 256) (b * 2 % 256)) (bit_xor (reduction a) (reduction b))
    ≡⟨ xor_interchange _ _ _ _ ⟩
      bit_xor (bit_xor (a * 2 % 256) (reduction a)) (bit_xor (b * 2 % 256) (reduction b))
    ≡⟨ sym (ap₂ bit_xor (shift_lem a p) (shift_lem b q)) ⟩ bit_xor (gf_shift a) (gf_shift b) ∎
  where
    doubles : bit_xor a b * 2 % 256 ≡ bit_xor (a * 2 % 256) (b * 2 % 256)
    doubles = ap (λ t. t % 256) (sym (xor_double a b)) ∙ xor_mod_byte (a * 2) (b * 2)

    reduces : reduction (bit_xor a b) ≡ bit_xor (reduction a) (reduction b)
    reduces = ap (λ t. t * 27) (high-xor a b) ∙ reduction_digits _ _ (omega arith) (omega arith)

pub gf_shift-lt : (a : ℕ) → a < 256 → gf_shift a < 256
gf_shift-lt a p =
    rw (shift_lem a p) (xor-lt_byte (a * 2 % 256) (reduction a) (omega arith) (omega arith))

gf_mul_loop-xor_left :
    (n p p' a a' b : ℕ)
    → a < 256
    → a' < 256
    → b < 256
    → gf_mul_loop n (bit_xor p p') (bit_xor a a') b
      ≡ bit_xor (gf_mul_loop n p a b) (gf_mul_loop n p' a' b)
unfolding gf_mul_loop mask
gf_mul_loop-xor_left zero p p' a a' b h h' k = refl
gf_mul_loop-xor_left (suc n) p p' a a' b h h' k =
    ap₂ (λ u v. gf_mul_loop n u v (b / 2))
      (ap (bit_xor (bit_xor p p')) (mask-xor_left a a' b h h' k)
        ∙ xor_interchange p p' (mask a b) (mask a' b))
      (gf_shift-xor a a' h h')
    ∙ gf_mul_loop-xor_left n (bit_xor p (mask a b)) (bit_xor p' (mask a' b)) (gf_shift a)
        (gf_shift a') (b / 2) (gf_shift-lt a h) (gf_shift-lt a' h') (omega arith)

gf_mul_loop-xor_right :
    (n p p' a b b' : ℕ)
    → a < 256
    → b < 256
    → b' < 256
    → gf_mul_loop n (bit_xor p p') a (bit_xor b b')
      ≡ bit_xor (gf_mul_loop n p a b) (gf_mul_loop n p' a b')
unfolding gf_mul_loop mask
gf_mul_loop-xor_right zero p p' a b b' h k k' = refl
gf_mul_loop-xor_right (suc n) p p' a b b' h k k' =
    ap₂ (λ u v. gf_mul_loop n u (gf_shift a) v)
      (ap (bit_xor (bit_xor p p')) (mask-xor_right a b b' h k k')
        ∙ xor_interchange p p' (mask a b) (mask a b'))
      (xor_halves b b').0
    ∙ gf_mul_loop-xor_right n (bit_xor p (mask a b)) (bit_xor p' (mask a b')) (gf_shift a) (b / 2)
        (b' / 2) (gf_shift-lt a h) (omega arith) (omega arith)

pub gf_mul-xor_left : (a b c : ℕ) → gf_mul (bit_xor a b) c ≡ bit_xor (gf_mul a c) (gf_mul b c)
unfolding gf_mul
gf_mul-xor_left a b c =
    ap (λ t. gf_mul_loop 8 0 t (u8 c)) (xor_mod_byte a b)
    ∙ gf_mul_loop-xor_left 8 0 0 (u8 a) (u8 b) (u8 c) (omega arith) (omega arith) (omega arith)

-- The product distributes over exclusive or.
pub gf_mul-xor_right : (a b c : ℕ) → gf_mul a (bit_xor b c) ≡ bit_xor (gf_mul a b) (gf_mul a c)
unfolding gf_mul
gf_mul-xor_right a b c =
    ap (λ t. gf_mul_loop 8 0 (u8 a) t) (xor_mod_byte b c)
    ∙ gf_mul_loop-xor_right 8 0 0 (u8 a) (u8 b) (u8 c) (omega arith) (omega arith) (omega arith)

gf_mul_loop-lt : (n p a b : ℕ) → p < 256 → a < 256 → b < 256 → gf_mul_loop n p a b < 256
unfolding gf_mul_loop mask
gf_mul_loop-lt zero p a b hp ha hb = hp
gf_mul_loop-lt (suc n) p a b hp ha hb =
    gf_mul_loop-lt n (bit_xor p (mask a b)) (gf_shift a) (b / 2) (xor-lt_byte p (mask a b) hp small)
      (gf_shift-lt a ha) (omega arith)
  where
    small : mask a b < 256
    small = elim (bit-cases b) [
      | inl h ↦ rw (mask-zero a b ha hb h) (omega arith)
      | inr h ↦ rw (mask-one a b ha hb h) ha
    ]

-- The product is a byte.
pub gf_mul-lt : (a b : ℕ) → gf_mul a b < 256
unfolding gf_mul
gf_mul-lt a b = gf_mul_loop-lt 8 0 (u8 a) (u8 b) (omega arith) (omega arith) (omega arith)

-- A factor counts up to its byte.
pub gf_mul-u8_left : (a b : ℕ) → gf_mul (u8 a) b ≡ gf_mul a b
unfolding gf_mul
gf_mul-u8_left a b =
    ap (λ t. gf_mul_loop 8 0 t (u8 b)) (let e : u8 (u8 a) ≡ u8 a = omega arith in e)

pub gf_mul-u8_right : (a b : ℕ) → gf_mul a (u8 b) ≡ gf_mul a b
unfolding gf_mul
gf_mul-u8_right a b = ap (gf_mul_loop 8 0 (u8 a)) (let e : u8 (u8 b) ≡ u8 b = omega arith in e)
