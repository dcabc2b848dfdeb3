-- ===== src/Shamir/Field.antt =====
-- What Lagrange interpolation asks of the arithmetic: a field of characteristic 2 whose elements
-- may have several representatives. A product is always a canonical one.
use secretstash.Base.{◌≡◌, sym, ap, ap₂, ◌∙◌}

pub record Field : Type 1 where
  pub F : Type 0
  pub zero : F
  pub one : F
  pub add : F → F → F
  pub mul : F → F → F
  pub inv : F → F
  pub IsUnit : F → Type 0
  pub add_assoc : (a b c : F) → add (add a b) c ≡ add a (add b c)
  pub add_comm : (a b : F) → add a b ≡ add b a
  pub add_self : (a : F) → add a a ≡ zero
  pub zero-add : (a : F) → add zero a ≡ a
  pub mul_assoc : (a b c : F) → mul (mul a b) c ≡ mul a (mul b c)
  pub mul_comm : (a b : F) → mul a b ≡ mul b a
  pub mul-add : (a b c : F) → mul a (add b c) ≡ add (mul a b) (mul a c)
  pub one-mul_mul : (a b : F) → mul one (mul a b) ≡ mul a b
  pub one-mul_inv : (a : F) → mul one (inv a) ≡ inv a
  pub one-one : mul one one ≡ one
  pub mul-inv : (a : F) → IsUnit a → mul a (inv a) ≡ one
  pub IsUnit-one : IsUnit one
  pub IsUnit-mul : (a b : F) → IsUnit a → IsUnit b → IsUnit (mul a b)

-- Derived laws.
module _ (k : Field) where
  open k use {
    F, zero, one, add, mul, add_assoc, add_comm, add_self, zero-add, mul_assoc, mul_comm, mul-add,
  }

  pub add-zero : (a : F) → add a zero ≡ a
  add-zero a = add_comm a zero ∙ zero-add a

  pub add_left_comm : (a b c : F) → add a (add b c) ≡ add b (add a c)
  add_left_comm a b c = sym (add_assoc a b c) ∙ ap (λ t. add t c) (add_comm a b) ∙ add_assoc b a c

  pub add_cancel : (a b : F) → add a (add a b) ≡ b
  add_cancel a b = sym (add_assoc a a b) ∙ ap (λ t. add t b) (add_self a) ∙ zero-add b

  pub add_interchange : (a b c d : F) → add (add a b) (add c d) ≡ add (add a c) (add b d)
  add_interchange a b c d =
      add_assoc a b _ ∙ ap (add a) (add_left_comm b c d) ∙ sym (add_assoc a c _)

  pub mul_left_comm : (a b c : F) → mul a (mul b c) ≡ mul b (mul a c)
  mul_left_comm a b c = sym (mul_assoc a b c) ∙ ap (λ t. mul t c) (mul_comm a b) ∙ mul_assoc b a c

  pub add-mul : (a b c : F) → mul (add a b) c ≡ add (mul a c) (mul b c)
  add-mul a b c = mul_comm _ c ∙ mul-add c a b ∙ ap₂ add (mul_comm c a) (mul_comm c b)

  pub mul-zero : (a : F) → mul a zero ≡ zero
  mul-zero a = ap (mul a) (sym (zero-add zero)) ∙ mul-add a zero zero ∙ add_self (mul a zero)

  pub zero-mul : (a : F) → mul zero a ≡ zero
  zero-mul a = mul_comm zero a ∙ mul-zero a
