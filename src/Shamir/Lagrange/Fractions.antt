-- ===== src/Shamir/Lagrange/Fractions.antt =====
-- Partial fractions: the basis polynomials of a list of points sum to 1 at 0.
use secretstash.Base.{◌≡◌, sym, ap, ap₂, ◌∙◌, List, [], ◌∷◌, All, All-map, ◌≡⟨◌⟩◌, ◌∎}
use secretstash.Shamir.Field.{Field}
use secretstash.Shamir.Field
use secretstash.Shamir.Lagrange.{
  Apart, Distinct, ratio, basis, weigh, weigh_congr, weigh-mul, weigh-add,
}

module _ (k : Field) where
  open k use {
    F, zero as o, one, add, mul, inv, IsUnit, add_assoc, add_comm, add_self, zero-add, mul_assoc,
    mul_comm, mul-add, one-mul_mul, one-mul_inv, one-one, mul-inv,
  }

  -- Partial fractions.
  inv-add-inv :
      (x v w : F)
      → IsUnit (add v w)
      → IsUnit (add x w)
      → add (inv (add v w)) (inv (add x w)) ≡ mul (add x v) (mul (inv (add v w)) (inv (add x w)))
  inv-add-inv x v w p q = sym (
      mul (add x v) (mul a b)
      ≡⟨ ap (λ t. mul t (mul a b)) split ⟩ mul (add (add x w) (add v w)) (mul a b)
      ≡⟨ Field.add-mul k _ _ _ ⟩ add (mul (add x w) (mul a b)) (mul (add v w) (mul a b))
      ≡⟨ ap₂ add left right ⟩ add a b ∎)
    where
      a : F
      a = inv (add v w)

      b : F
      b = inv (add x w)

      split : add x v ≡ add (add x w) (add v w)
      split =
          sym
            (Field.add_interchange k x w v w ∙ ap (add (add x v)) (add_self w) ∙ Field.add-zero k _)

      left : mul (add x w) (mul a b) ≡ a
      left = Field.mul_left_comm k _ a b ∙ ap (mul a) (mul-inv _ q) ∙ mul_comm a one ∙ one-mul_inv _

      right : mul (add v w) (mul a b) ≡ b
      right = sym (mul_assoc _ a b) ∙ ap (λ t. mul t b) (mul-inv _ p) ∙ one-mul_inv _

  ratio-mul-ratio :
      (x v w : F)
      → Apart k x v
      → Apart k v w
      → Apart k x w
      → mul (ratio k x w) (ratio k w v) ≡ mul (ratio k x v) (add (ratio k v w) (ratio k x w))
  ratio-mul-ratio x v w p q r = sym (
      mul (mul v a) (add (mul w b) (mul w c))
      ≡⟨ ap (mul (mul v a)) (sym (mul-add w b c) ∙ ap (mul w) (inv-add-inv x v w q r)) ⟩
        mul (mul v a) (mul w (mul (add x v) (mul b c)))
      ≡⟨ (simp (mul_assoc, mul_comm, Field.mul_left_comm k)) ⟩
        mul (mul (add x v) a) (mul (mul w c) (mul v b))
      ≡⟨ ap (λ t. mul t (mul (mul w c) (mul v b))) (mul-inv _ p) ∙ one-mul_mul _ _ ⟩
        mul (mul w c) (mul v b)
      ≡⟨ ap (λ t. mul (mul w c) (mul v (inv t))) (add_comm v w) ⟩ mul (mul w c) (ratio k w v) ∎)
    where
      a : F
      a = inv (add x v)

      b : F
      b = inv (add v w)

      c : F
      c = inv (add x w)

  ratio_split :
      (x v : F) (ws : List F)
      → Apart k x v
      → All (Apart k x) ws
      → All (Apart k v) ws
      → All
          (λ w.
            mul (ratio k x w) (ratio k w v) ≡ mul (ratio k x v) (add (ratio k v w) (ratio k x w)))
          ws
  ratio_split x v [] a p q = tt
  ratio_split x v (w ∷ ws) a p q = (ratio-mul-ratio x v w a q.0 p.0, ratio_split x v ws a p.1 q.1)

  -- The basis polynomial of x among ys, as a weighted sum over ys.
  pub weigh-ratio :
      (x v : F) (ys : List F)
      → All (Apart k x) (v ∷ ys)
      → Distinct k (v ∷ ys)
      → weigh k (v ∷ ys) (ratio k x) ≡ basis k x (v ∷ ys)
  unfolding weigh basis
  weigh-ratio x v [] a d = Field.add-zero k _
  weigh-ratio x v (u ∷ us) a d =
      ap (add (mul (ratio k x v) (basis k v (u ∷ us)))) (
        weigh_congr k (u ∷ us) _ _ (ratio_split x v (u ∷ us) a.0 a.1 d.0)
        ∙ weigh-mul k (ratio k x v) (u ∷ us) (λ w. add (ratio k v w) (ratio k x w))
        ∙ ap (mul (ratio k x v)) (
            weigh-add k (u ∷ us) (ratio k v) (ratio k x)
            ∙ ap₂ add (weigh-ratio v u us d.0 d.1) (weigh-ratio x u us a.1 d.1))
        ∙ mul-add (ratio k x v) _ _)
      ∙ Field.add_cancel k _ _

  one-mul-basis : (x v : F) (ys : List F) → mul one (basis k x (v ∷ ys)) ≡ basis k x (v ∷ ys)
  unfolding basis
  one-mul-basis x v ys = one-mul_mul _ _

  -- x / (x + w) is 1 + w / (x + w).
  one-mul-ratio : (x w : F) → Apart k x w → mul one (ratio k w x) ≡ add one (ratio k x w)
  one-mul-ratio x w p = sym (
      add one (mul w a)
      ≡⟨ ap (λ t. add t (mul w a)) (sym (mul-inv _ p)) ⟩ add (mul (add x w) a) (mul w a)
      ≡⟨ ap (λ t. add t (mul w a)) (Field.add-mul k x w a) ⟩ add (add (mul x a) (mul w a)) (mul w a)
      ≡⟨ add_assoc _ _ _ ∙ ap (add (mul x a)) (add_self _) ∙ Field.add-zero k _ ⟩ mul x a
      ≡⟨ ap (λ t. mul x (inv t)) (add_comm x w) ∙ sym (one-mul_mul _ _) ⟩ mul one (ratio k w x) ∎)
    where
      a : F
      a = inv (add x w)

  one_split :
      (x : F) (ws : List F)
      → All (Apart k x) ws
      → All (λ w. mul one (ratio k w x) ≡ add one (ratio k x w)) ws
  one_split x ws = All-map (one-mul-ratio x) ws

  -- The basis polynomials sum to 1.
  pub weigh-one : (x : F) (ys : List F) → Distinct k (x ∷ ys) → weigh k (x ∷ ys) (λ w. one) ≡ one
  unfolding weigh basis
  weigh-one x [] d = Field.add-zero k _ ∙ one-one
  weigh-one x (v ∷ vs) d =
      ap₂ add (one-mul-basis x v vs) (
        weigh_congr k (v ∷ vs) _ _ (one_split x (v ∷ vs) d.0)
        ∙ weigh-add k (v ∷ vs) (λ w. one) (ratio k x)
        ∙ ap₂ add (weigh-one v vs d.1) (weigh-ratio x v vs d.0 d.1)
        ∙ add_comm _ _)
      ∙ Field.add_cancel k _ _
