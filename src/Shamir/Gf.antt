-- ===== src/Shamir/Gf.antt =====
-- The field arithmetic of internal/shamir/shamir.go: gfMul, gfInv and gfEval. A byte is a number
-- below 256; a parameter of type `byte` is reduced on entry.
pub mod Linear
pub mod Laws
pub mod Instance
pub mod Power
use secretstash.Base.{
  ℕ, zero, suc, ◌-◌, ◌*◌, ◌/◌, ◌%◌, ◌^◌, bit_and, bit_xor, List, [], ◌∷◌, ◌==◌, if◌then◌else◌,
}

-- byte(x)
abbrev pub u8 : ℕ → ℕ
u8 x = x % 256

-- -x on bytes
abbrev pub neg8 : ℕ → ℕ
neg8 x = (256 - x) % 256

-- One round of gfMul on a: the shift and the reduction by 0x11b.
unfoldable pub gf_shift : ℕ → ℕ
gf_shift a = let hi = neg8 (a / 2 ^ 7) in bit_xor (u8 (a * 2)) (bit_and 0x1b hi)

-- The rounds of gfMul that are left, with p, a and b.
unfoldable pub gf_mul_loop : ℕ → ℕ → ℕ → ℕ → ℕ
unfolding gf_shift
gf_mul_loop zero p a b = p
gf_mul_loop (suc n) p a b =
    gf_mul_loop n (bit_xor p (bit_and a (neg8 (bit_and b 1)))) (gf_shift a) (b / 2)

unfoldable pub gf_mul : ℕ → ℕ → ℕ
unfolding gf_mul_loop
gf_mul a b = gf_mul_loop 8 0 (u8 a) (u8 b)

-- The loop of gfInv with its exponent; `exp` loses a digit in each round.
unfoldable pub gf_inv_loop : ℕ → ℕ → ℕ → ℕ → ℕ
unfolding gf_mul
gf_inv_loop zero exp result base = result
gf_inv_loop (suc fuel) exp result base =
    let result' = (if bit_and exp 1 == 1 then gf_mul result base else result) in
    let rest = gf_inv_loop fuel (exp / 2) result' (gf_mul base base) in
    if exp == 0 then result else rest

unfoldable pub gf_inv : ℕ → ℕ
unfolding gf_inv_loop
gf_inv a = gf_inv_loop 9 254 1 a

-- gfEval: Horner's method from the last coefficient down to the constant term.
unfoldable pub gf_eval : List ℕ → ℕ → ℕ
unfolding gf_mul
gf_eval [] x = 0
gf_eval (c ∷ coeffs) x = bit_xor (gf_mul (gf_eval coeffs x) x) c
