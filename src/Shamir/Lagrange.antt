-- ===== src/Shamir/Lagrange.antt =====
-- Lagrange interpolation at 0, over any field of characteristic 2: the weighted sum of the values
-- of a polynomial at enough distinct points is its constant term.
pub mod Fractions
pub mod Polynomial
pub mod Product
pub mod Sum
use mathlib.Core.Path.{fun_ext}
use secretstash.Base.{
  ℕ, zero, suc, ◌≤◌, ◌≡◌, refl, sym, ap, ap₂, ◌∙◌, List, [], ◌∷◌, ◌++◌, length, All, All-map, arith,
  ◌≡⟨◌⟩◌, ◌∎,
}
use secretstash.Shamir.Field.{Field}
use secretstash.Shamir.Field

module _ (k : Field) where
  open k use {
    F, zero as o, one, add, mul, inv, IsUnit, add_assoc, add_comm, add_self, zero-add, mul_assoc,
    mul_comm, mul-add, one-mul_mul, one-mul_inv, one-one, mul-inv,
  }

  abbrev pub Apart : F → F → Type 0
  Apart a b = IsUnit (add a b)

  -- Pairwise distinct points.
  abbrev pub Distinct : List F → Type 0
  Distinct [] = Unit
  Distinct (x ∷ xs) = All (Apart x) xs × Distinct xs

  abbrev pub ratio : F → F → F
  ratio x w = mul w (inv (add x w))

  -- The Lagrange basis polynomial of the point x among the points ys, at 0.
  unfoldable pub basis : F → List F → F
  basis x [] = one
  basis x (w ∷ ys) = mul (ratio x w) (basis x ys)

  -- The sum of f x times the basis polynomial of x, over the points x.
  unfoldable pub weigh : List F → (F → F) → F
  weigh [] f = o
  weigh (x ∷ ys) f = add (mul (f x) (basis x ys)) (weigh ys (λ w. mul (f w) (ratio w x)))

  unfoldable pub eval : List F → F → F
  eval [] x = o
  eval (c ∷ cs) x = add (mul (eval cs x) x) c

  pub weigh_congr : (ys : List F) (f g : F → F) → All (λ w. f w ≡ g w) ys → weigh ys f ≡ weigh ys g
  unfolding weigh
  weigh_congr [] f g h = refl
  weigh_congr (x ∷ ys) f g h =
      ap₂ add (ap (λ t. mul t (basis x ys)) h.0)
        (weigh_congr ys _ _ (All-map (λ w e. ap (λ t. mul t (ratio w x)) e) ys h.1))

  pub weigh-zero : (ys : List F) → weigh ys (λ w. o) ≡ o
  unfolding weigh
  weigh-zero [] = refl
  weigh-zero (x ∷ ys) =
      ap₂ add (Field.zero-mul k (basis x ys))
        (ap (weigh ys) (fun_ext (λ w. Field.zero-mul k (ratio w x))) ∙ weigh-zero ys)
      ∙ zero-add o

  pub weigh-mul :
      (c : F) (ys : List F) (f : F → F) → weigh ys (λ w. mul c (f w)) ≡ mul c (weigh ys f)
  unfolding weigh
  weigh-mul c [] f = sym (Field.mul-zero k c)
  weigh-mul c (x ∷ ys) f =
      ap₂ add (mul_assoc c (f x) (basis x ys)) (
        ap (weigh ys) (fun_ext (λ w. mul_assoc c (f w) (ratio w x)))
        ∙ weigh-mul c ys (λ w. mul (f w) (ratio w x)))
      ∙ sym (mul-add c _ _)

  pub weigh-add :
      (ys : List F) (f g : F → F) → weigh ys (λ w. add (f w) (g w)) ≡ add (weigh ys f) (weigh ys g)
  unfolding weigh
  weigh-add [] f g = sym (zero-add o)
  weigh-add (x ∷ ys) f g =
      ap₂ add (Field.add-mul k (f x) (g x) (basis x ys)) (
        ap (weigh ys) (fun_ext (λ w. Field.add-mul k (f w) (g w) (ratio w x)))
        ∙ weigh-add ys (λ w. mul (f w) (ratio w x)) (λ w. mul (g w) (ratio w x)))
      ∙ Field.add_interchange k _ _ _ _
