-- ===== src/Shamir/Gf/Power.antt =====
-- The loop of gfInv in internal/shamir/shamir.go is a power by repeated squaring.
use secretstash.Base.{
  ℕ, zero, suc, ◌+◌, ◌*◌, ◌/◌, ◌^◌, ◌<◌, bit_and, ◌≡◌, refl, sym, ap, ◌∙◌, arith, ◌==◌, ==_iff,
  Bool-cases, inl, inr, if◌then◌else◌,
}
use secretstash.Base.Bits.{bit_and-one}
use secretstash.Shamir.Gf.{gf_mul, gf_inv_loop}
use secretstash.Shamir.Gf.Laws.{gf_mul_assoc}

-- The product of a number with n factors a, one after the other.
abbrev pub gf_mul_times : ℕ → ℕ → ℕ → ℕ
gf_mul_times zero result a = result
gf_mul_times (suc n) result a = gf_mul_times n (gf_mul result a) a

-- Twice as many factors are as many squares.
gf_mul_times_double :
    (n result a : ℕ) → gf_mul_times (n + n) result a ≡ gf_mul_times n result (gf_mul a a)
gf_mul_times_double zero result a = refl
gf_mul_times_double (suc n) result a =
    let two : suc n + suc n ≡ suc (suc (n + n)) = omega arith in
    ap (λ m. gf_mul_times m result a) two
    ∙ ap (λ r. gf_mul_times (n + n) r a) (gf_mul_assoc result a a)
    ∙ gf_mul_times_double n (gf_mul result (gf_mul a a)) a

-- One round, on an even and on an odd exponent.
gf_mul_times_round :
    (e result a : ℕ)
    → gf_mul_times (e / 2) (if bit_and e 1 == 1 then gf_mul result a else result) (gf_mul a a)
      ≡ gf_mul_times e result a
gf_mul_times_round e result a = elim (Bool-cases (bit_and e 1 == 1)) [
  | inl h ↦
      let odd : suc (e / 2 + e / 2) ≡ e =
        omega (arith, bit_and-one e, (==_iff (bit_and e 1) 1).0 h) in
      rw h (
        sym (gf_mul_times_double (e / 2) (gf_mul result a) a)
        ∙ ap (λ n. gf_mul_times n result a) odd)
  | inr h ↦
      let even : e / 2 + e / 2 ≡ e = ground (arith, bit_and-one e, h) in
      rw h (sym (gf_mul_times_double (e / 2) result a) ∙ ap (λ n. gf_mul_times n result a) even)
]

-- The loop of gfInv with an exponent below 2 ^ fuel ends, with the product of its result and as many
-- factors as the exponent says.
pub gf_inv_loop-gf_mul_times :
    (fuel e result a : ℕ) → e < 2 ^ fuel → gf_inv_loop fuel e result a ≡ gf_mul_times e result a
unfolding gf_inv_loop
gf_inv_loop-gf_mul_times zero e result a h =
    let none_left : 0 ≡ e = omega arith in ap (λ n. gf_mul_times n result a) none_left
gf_inv_loop-gf_mul_times (suc fuel) e result a h = elim (Bool-cases (e == 0)) [
  | inl z ↦ rw z (ap (λ n. gf_mul_times n result a) (sym ((==_iff e 0).0 z)))
  | inr z ↦
      let halved : 2 ^ suc fuel ≡ 2 ^ fuel * 2 = omega arith in
      rw z (
        gf_inv_loop-gf_mul_times fuel (e / 2) _ (gf_mul a a) (omega (arith, halved))
        ∙ gf_mul_times_round e result a)
]
