-- ===== src/Shamir/Gf/Instance.antt =====
-- The bytes with exclusive or, gfMul and gfInv as the field that interpolation asks for.
use secretstash.Base.{
  ℕ, ◌<◌, ◌≡◌, ◌≢◌, refl, sym, ap, ◌∙◌, bit_xor, List, [], ◌∷◌, All, arith, ◌≡⟨◌⟩◌, ◌∎,
}
use secretstash.Base.Bits.{xor_assoc, xor_comm, xor_self, zero-xor, xor-lt_byte}
use secretstash.Shamir.Field.{Field}
use secretstash.Shamir.Lagrange.{eval}
use secretstash.Shamir.Gf.{u8, gf_mul, gf_inv_loop, gf_inv, gf_eval}
use secretstash.Shamir.Gf.Linear.{gf_mul-lt, gf_mul-xor_right, gf_mul-u8_left}
use secretstash.Shamir.Gf.Laws.{gf_mul_comm, gf_mul_assoc, one-gf_mul, gf_mul-gf_inv}

-- An element other than zero.
abbrev pub IsUnit : ℕ → Type 0
IsUnit a = u8 a ≢ 0

gf_mul-zero : (a : ℕ) → gf_mul a 0 ≡ 0
gf_mul-zero a = gf_mul-xor_right a 0 0 ∙ xor_self (gf_mul a 0)

-- The product of elements other than zero is not zero.
pub IsUnit-gf_mul : (a b : ℕ) → IsUnit a → IsUnit b → IsUnit (gf_mul a b)
IsUnit-gf_mul a b p q e = p (
    u8 a
    ≡⟨ sym (one-gf_mul (u8 a) (omega arith)) ∙ gf_mul_comm 1 (u8 a) ∙ gf_mul-u8_left a 1 ⟩
      gf_mul a 1
    ≡⟨ ap (gf_mul a) (sym (gf_mul-gf_inv b q)) ∙ sym (gf_mul_assoc a b (gf_inv b)) ⟩
      gf_mul (gf_mul a b) (gf_inv b)
    ≡⟨ ap (λ t. gf_mul t (gf_inv b)) is_zero ∙ gf_mul_comm 0 _ ∙ gf_mul-zero _ ⟩ 0 ∎)
  where
    is_zero : gf_mul a b ≡ 0
    is_zero = omega (arith, gf_mul-lt a b)

pub gf_inv-lt : (a : ℕ) → gf_inv a < 256
unfolding gf_inv gf_inv_loop
gf_inv-lt a = gf_mul-lt _ _

abbrev pub gf : Field
gf = record {
  F = ℕ;
  zero = 0;
  one = 1;
  add = bit_xor;
  mul = gf_mul;
  inv = gf_inv;
  IsUnit = IsUnit;
  add_assoc = xor_assoc;
  add_comm = xor_comm;
  add_self = xor_self;
  zero-add = zero-xor;
  mul_assoc = gf_mul_assoc;
  mul_comm = gf_mul_comm;
  mul-add = gf_mul-xor_right;
  one-mul_mul = λ a b. one-gf_mul (gf_mul a b) (gf_mul-lt a b);
  one-mul_inv = λ a. one-gf_mul (gf_inv a) (gf_inv-lt a);
  one-one = one-gf_mul 1 one_lt;
  mul-inv = gf_mul-gf_inv;
  IsUnit-one = IsUnit_one;
  IsUnit-mul = IsUnit-gf_mul;
}
  where
    one_lt : 1 < 256
    one_lt = omega arith

    IsUnit_one : IsUnit 1
    IsUnit_one = omega arith

pub eval-gf_eval : (cs : List ℕ) (x : ℕ) → eval gf cs x ≡ gf_eval cs x
unfolding gf_eval eval
eval-gf_eval [] x = refl
eval-gf_eval (c ∷ cs) x = ap (λ t. bit_xor (gf_mul t x) c) (eval-gf_eval cs x)

-- The value of a polynomial of bytes is a byte.
pub gf_eval-lt : (cs : List ℕ) (x : ℕ) → All (λ c. c < 256) cs → gf_eval cs x < 256
unfolding gf_eval
gf_eval-lt [] x h = omega arith
gf_eval-lt (c ∷ cs) x h = xor-lt_byte _ c (gf_mul-lt _ x) h.0

-- The product of field elements is associative and commutative, it distributes over exclusive or, and a byte
-- other than zero times its inverse is one.
pub gf_mul_field :
    (a b c : ℕ)
    → IsUnit a
    → (gf_mul (gf_mul a b) c ≡ gf_mul a (gf_mul b c))
      × (gf_mul a b ≡ gf_mul b a)
      × (gf_mul a (bit_xor b c) ≡ bit_xor (gf_mul a b) (gf_mul a c))
      × (gf_mul a (gf_inv a) ≡ 1)
gf_mul_field a b c h =
    (gf_mul_assoc a b c, gf_mul_comm a b, gf_mul-xor_right a b c, gf_mul-gf_inv a h)
