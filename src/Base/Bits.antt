-- ===== src/Base/Bits.antt =====
-- Laws of exclusive or at variables, and checks of every value below a bound.
use Prim.Native.Nat.{
  ℕ, zero, suc, ◌+◌, ◌*◌, ◌/◌, ◌%◌, ◌≤◌, ◌<◌, bit_and, bit_xor, min, digits, differ,
  bit_xor-bitwise, bit_and-bitwise,
}
use mathlib.Core.Path.{◌≡◌, refl, sym, ap, ap₂, ◌∙◌}
use mathlib.Core.Logic.{◌≢◌}
use mathlib.Core.Bool.{Bool, true, ◌&&◌}
use native.Mathlib.Omega.{arith}

xor_digits : ℕ → ℕ → ℕ → ℕ
xor_digits n a b = digits (λ y. y) differ n a b

-- The fuel does not matter as long as there is enough of it.
xor_digits_enough :
    (x y fuel more : ℕ) → x ≤ fuel → x ≤ more → xor_digits fuel x y ≡ xor_digits more x y
unfolding xor_digits
xor_digits_enough zero y zero zero h k = refl
xor_digits_enough zero y zero (suc more) h k = refl
xor_digits_enough zero y (suc fuel) zero h k = refl
xor_digits_enough zero y (suc fuel) (suc more) h k = refl
xor_digits_enough (suc x) y zero more h k = absurd (omega arith)
xor_digits_enough (suc x) y (suc fuel) zero h k = absurd (omega arith)
xor_digits_enough (suc x) y (suc fuel) (suc more) h k =
    let halves = xor_digits_enough (suc x / 2) (y / 2) fuel more (omega arith) (omega arith) in
    omega (arith, halves)

pub zero-xor : (b : ℕ) → bit_xor 0 b ≡ b
zero-xor b = bit_xor-bitwise 0 b

differ-zero : (b : ℕ) → differ 0 b ≡ b
differ-zero b = refl

-- The lowest digit of an exclusive or, and the rest.
pub xor_step : (x y : ℕ) → bit_xor x y ≡ 2 * bit_xor (x / 2) (y / 2) + differ (x % 2) (y % 2)
unfolding xor_digits
xor_step zero y = omega (arith, zero-xor (y / 2), zero-xor y)
xor_step (suc x) y =
    let rounds = xor_digits_enough (suc x / 2) (y / 2) x (suc x / 2) (omega arith) (omega arith) in
    omega (arith, rounds, bit_xor-bitwise (suc x / 2) (y / 2), bit_xor-bitwise (suc x) y)

-- Two digits of a number below 2.
differ_bit : (x y : ℕ) → x < 2 → y < 2 → differ x y ≡ (y + x) % 2
differ_bit zero y h k = omega arith
differ_bit (suc (suc x)) y h k = absurd (omega arith)
differ_bit (suc zero) zero h k = refl
differ_bit (suc zero) (suc zero) h k = refl
differ_bit (suc zero) (suc (suc y)) h k = absurd (omega arith)

-- Half of an exclusive or, and its parity.
pub xor_halves :
    (a b : ℕ)
    → (bit_xor a b / 2 ≡ bit_xor (a / 2) (b / 2)) × (bit_xor a b % 2 ≡ (a % 2 + b % 2) % 2)
xor_halves a b =
    let s = xor_step a b in
    let d = differ_bit (a % 2) (b % 2) (omega arith) (omega arith) in (omega arith, omega arith)

-- A number is its half and its parity.
eq_of_halves : (a b : ℕ) → a / 2 ≡ b / 2 → a % 2 ≡ b % 2 → a ≡ b
eq_of_halves a b h p = omega arith

xor_comm_below : (n a b : ℕ) → a ≤ n → b ≤ n → bit_xor a b ≡ bit_xor b a
xor_comm_below zero a b p q =
    let x : a ≡ 0 = omega arith in let y : b ≡ 0 = omega arith in rw (x, y) refl
xor_comm_below (suc n) a b p q =
    let ab = xor_halves a b in
    let ba = xor_halves b a in
    let ih = xor_comm_below n (a / 2) (b / 2) (omega arith) (omega arith) in
    eq_of_halves _ _ (omega arith) (omega arith)

pub xor_comm : (a b : ℕ) → bit_xor a b ≡ bit_xor b a
xor_comm a b = xor_comm_below (a + b) a b (omega arith) (omega arith)

pub xor-zero : (a : ℕ) → bit_xor a 0 ≡ a
xor-zero a = xor_comm a 0 ∙ zero-xor a

xor_assoc_below :
    (n a b c : ℕ) → a ≤ n → b ≤ n → c ≤ n → bit_xor (bit_xor a b) c ≡ bit_xor a (bit_xor b c)
xor_assoc_below zero a b c p q r =
    let x : a ≡ 0 = omega arith in
    let y : b ≡ 0 = omega arith in let z : c ≡ 0 = omega arith in rw (x, y, z) refl
xor_assoc_below (suc n) a b c p q r =
    let ab = xor_halves a b in
    let bc = xor_halves b c in
    let l = xor_halves (bit_xor a b) c in
    let m = xor_halves a (bit_xor b c) in
    let ih = xor_assoc_below n (a / 2) (b / 2) (c / 2) (omega arith) (omega arith) (omega arith) in
    eq_of_halves _ _
      (l.0 ∙ ap (λ t. bit_xor t (c / 2)) ab.0 ∙ ih ∙ sym (ap (bit_xor (a / 2)) bc.0) ∙ sym m.0)
      (omega arith)

pub xor_assoc : (a b c : ℕ) → bit_xor (bit_xor a b) c ≡ bit_xor a (bit_xor b c)
xor_assoc a b c = xor_assoc_below (a + b + c) a b c (omega arith) (omega arith) (omega arith)

xor_self_below : (n a : ℕ) → a ≤ n → bit_xor a a ≡ 0
xor_self_below zero a p = let x : a ≡ 0 = omega arith in rw x refl
xor_self_below (suc n) a p =
    let aa = xor_halves a a in
    let ih = xor_self_below n (a / 2) (omega arith) in eq_of_halves _ _ (omega arith) (omega arith)

pub xor_self : (a : ℕ) → bit_xor a a ≡ 0
xor_self a = xor_self_below a a (omega arith)

-- The sums of four terms regroup.
pub xor_interchange :
    (a b c d : ℕ) → bit_xor (bit_xor a b) (bit_xor c d) ≡ bit_xor (bit_xor a c) (bit_xor b d)
xor_interchange a b c d =
    xor_assoc a b (bit_xor c d)
    ∙ ap (bit_xor a)
        (sym (xor_assoc b c d) ∙ ap (λ t. bit_xor t d) (xor_comm b c) ∙ xor_assoc c b d)
    ∙ sym (xor_assoc a c (bit_xor b d))

pub xor_cancel : (a b : ℕ) → bit_xor a (bit_xor a b) ≡ b
xor_cancel a b = sym (xor_assoc a a b) ∙ ap (λ t. bit_xor t b) (xor_self a) ∙ zero-xor b

pub eq_of_xor : (a b : ℕ) → bit_xor a b ≡ 0 → a ≡ b
eq_of_xor a b h = sym (xor-zero a) ∙ ap (bit_xor a) (sym h) ∙ xor_cancel a b

pub xor_double : (a b : ℕ) → bit_xor (a * 2) (b * 2) ≡ bit_xor a b * 2
xor_double a b =
    let h = xor_halves (a * 2) (b * 2) in
    let l : a * 2 / 2 ≡ a = omega arith in
    let r : b * 2 / 2 ≡ b = omega arith in
    eq_of_halves _ _ (h.0 ∙ ap₂ bit_xor l r ∙ omega arith) (omega arith)

-- Exclusive or acts on the remainders by 2, 4, …, one digit at a time.
abbrev XorMod : ℕ → Type 0
XorMod m = (a b : ℕ) → bit_xor a b % m ≡ bit_xor (a % m) (b % m)

XorMod-double :
    (m k : ℕ)
    → ((x : ℕ) → x % k / 2 ≡ x / 2 % m)
    → ((x : ℕ) → x % k % 2 ≡ x % 2)
    → XorMod m
    → XorMod k
XorMod-double m k half parity h a b =
    let ab = xor_halves a b in
    let r = xor_halves (a % k) (b % k) in
    eq_of_halves _ _
      (half (bit_xor a b)
        ∙ ap (λ t. t % m) ab.0
        ∙ h (a / 2) (b / 2)
        ∙ sym (ap₂ bit_xor (half a) (half b))
        ∙ sym r.0)
      (omega (arith, parity (bit_xor a b), parity a, parity b))

XorMod-2 : XorMod 2
XorMod-2 a b = omega (
  arith,
  xor_halves a b,
  xor_step (a % 2) (b % 2),
  differ_bit (a % 2) (b % 2),
  differ_bit (a % 2 % 2) (b % 2 % 2),
  (zero-xor 0),
  ap₂ bit_xor (let e : a % 2 / 2 ≡ 0 = omega arith in e) (let e : b % 2 / 2 ≡ 0 = omega arith in e),
)

pub xor_mod_byte : (a b : ℕ) → bit_xor a b % 256 ≡ bit_xor (a % 256) (b % 256)
xor_mod_byte =
    up 128 256 (λ x. omega arith) (λ x. omega arith)
      (up 64 128 (λ x. omega arith) (λ x. omega arith)
        (up 32 64 (λ x. omega arith) (λ x. omega arith)
          (up 16 32 (λ x. omega arith) (λ x. omega arith)
            (up 8 16 (λ x. omega arith) (λ x. omega arith)
              (up 4 8 (λ x. omega arith) (λ x. omega arith)
                (up 2 4 (λ x. omega arith) (λ x. omega arith) XorMod-2))))))
  where
    up :
        (m k : ℕ)
        → ((x : ℕ) → x % k / 2 ≡ x / 2 % m)
        → ((x : ℕ) → x % k % 2 ≡ x % 2)
        → XorMod m
        → XorMod k
    up = XorMod-double

pub xor-lt_byte : (a b : ℕ) → a < 256 → b < 256 → bit_xor a b < 256
xor-lt_byte a b p q =
    let e : bit_xor a b % 256 ≡ bit_xor a b =
      xor_mod_byte a b
      ∙ ap₂ bit_xor (let l : a % 256 ≡ a = omega arith in l)
          (let r : b % 256 ≡ b = omega arith in r) in
    omega arith

-- Distinct bytes differ in some digit.
pub xor_ne : (a b : ℕ) → a < 256 → b < 256 → a ≢ b → bit_xor a b % 256 ≢ 0
xor_ne a b p q h e = let f = xor-lt_byte a b p q in h (eq_of_xor a b (omega arith))

-- Check every value below a bound by evaluation.
unfoldable pub all_below : ℕ → (ℕ → Bool) → Bool
all_below zero p = true
all_below (suc n) p = p n && all_below n p

pub all_below_sound :
    (bound : ℕ) (test : ℕ → Bool) (k : ℕ) → all_below bound test ≡ true → k < bound → test k ≡ true
unfolding all_below
all_below_sound zero test k checked below = absurd (omega arith)
all_below_sound (suc bound) test k checked below = ground (all_below_sound bound test k, arith)

min_zero : (x : ℕ) → min x 0 ≡ 0
min_zero x = omega arith

min_bit : (x : ℕ) → x < 2 → min x 1 ≡ x
min_bit x h = omega arith

and_zero_digits : (n a : ℕ) → digits (λ b. zero) min n a 0 ≡ 0
and_zero_digits zero a = refl
and_zero_digits (suc n) zero = refl
and_zero_digits (suc n) (suc a) = omega (arith, and_zero_digits n (suc a / 2), min_zero (suc a % 2))

-- The lowest digit of a number.
pub bit_and-one : (e : ℕ) → bit_and e 1 ≡ e % 2
bit_and-one zero = bit_and-bitwise 0 1
bit_and-one (suc e) = omega (
  arith,
  bit_and-bitwise (suc e) 1,
  and_zero_digits e (suc e / 2),
  min_bit (suc e % 2) (omega arith),
)
