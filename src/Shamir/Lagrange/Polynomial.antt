-- ===== src/Shamir/Lagrange/Polynomial.antt =====
-- The weighted sum of the values of a polynomial, by division with remainder.
use mathlib.Core.Path.{fun_ext}
use secretstash.Base.{
  suc, ◌≤◌, ◌≡◌, refl, sym, ap, ap₂, ◌∙◌, List, [], ◌∷◌, length, All-map, arith, ◌≡⟨◌⟩◌, ◌∎,
}
use secretstash.Shamir.Field.{Field}
use secretstash.Shamir.Field
use secretstash.Shamir.Lagrange.{
  Apart, Distinct, ratio, basis, weigh, eval, weigh_congr, weigh-zero, weigh-mul, weigh-add,
}
use secretstash.Shamir.Lagrange.Fractions.{weigh-ratio, weigh-one}

module _ (k : Field) where
  open k use {
    F, zero as o, one, add, mul, inv, IsUnit, add_assoc, add_comm, add_self, zero-add, mul_assoc,
    mul_comm, mul-add, one-mul_mul, one-mul_inv, one-one, mul-inv,
  }

  -- The quotient of the polynomial c + w * (cs at w) by w - x.
  quotient : List F → F → List F
  unfolding eval
  quotient [] x = []
  quotient (d ∷ ds) x = eval k (d ∷ ds) x ∷ quotient ds x

  length-quotient : (cs : List F) (x : F) → length (quotient cs x) ≡ length cs
  unfolding quotient
  length-quotient [] x = refl
  length-quotient (d ∷ ds) x = ap suc (length-quotient ds x)

  horner_step :
      (r x w t c : F)
      → add (mul (add r (mul (add x w) t)) w) c
        ≡ add (add (mul r x) c) (mul (add x w) (add (mul t w) r))
  horner_step r x w t c = simp (
    Field.add-mul k,
    mul-add,
    add_assoc,
    add_comm,
    Field.add_left_comm k,
    mul_assoc,
    mul_comm,
    Field.add_cancel k,
  )

  -- Division with remainder.
  eval-quotient :
      (c : F) (cs : List F) (x w : F)
      → eval k (c ∷ cs) w ≡ add (eval k (c ∷ cs) x) (mul (add x w) (eval k (quotient cs x) w))
  unfolding eval quotient
  eval-quotient c [] x w =
      ap (λ t. add t c) (Field.zero-mul k w)
      ∙ sym (
          ap₂ add (ap (λ t. add t c) (Field.zero-mul k x)) (Field.mul-zero k _)
          ∙ Field.add-zero k _)
  eval-quotient c (d ∷ ds) x w =
      ap (λ t. add (mul t w) c) (eval-quotient d ds x w)
      ∙ horner_step (eval k (d ∷ ds) x) x w (eval k (quotient ds x) w) c

  peel_products :
      (r s w x i t : F)
      → mul (mul w (add r (mul s t))) (mul x i)
        ≡ add (mul (mul x r) (mul w i)) (mul (mul s i) (mul x (mul w t)))
  peel_products r s w x i t =
      simp (mul-add, Field.add-mul k, mul_assoc, mul_comm, Field.mul_left_comm k)

  -- One point of the sum of w * (the polynomial at w), with the quotient by another point.
  peel :
      (c : F) (cs : List F) (x w : F)
      → Apart k x w
      → mul (mul w (eval k (c ∷ cs) w)) (ratio k w x)
        ≡ add
            (mul (mul x (eval k (c ∷ cs) x)) (ratio k x w))
            (mul x (mul w (eval k (quotient cs x) w)))
  peel c cs x w p =
      mul (mul w (eval k (c ∷ cs) w)) (ratio k w x)
      ≡⟨ ap₂ (λ s a. mul (mul w s) (mul x (inv a))) (eval-quotient c cs x w) (add_comm w x) ⟩
        mul (mul w (add r (mul (add x w) t))) (mul x i)
      ≡⟨ peel_products r (add x w) w x i t ⟩
        add (mul (mul x r) (mul w i)) (mul (mul (add x w) i) (mul x (mul w t)))
      ≡⟨ ap (λ u. add (mul (mul x r) (mul w i)) (mul u (mul x (mul w t)))) (mul-inv _ p)
        ∙ ap (add (mul (mul x r) (mul w i))) (one-mul_mul _ _) ⟩
        add (mul (mul x r) (mul w i)) (mul x (mul w t)) ∎
    where
      r : F
      r = eval k (c ∷ cs) x

      t : F
      t = eval k (quotient cs x) w

      i : F
      i = inv (add x w)

  -- A polynomial without a constant term weighs nothing, if there are enough points.
  weigh-eval_zero :
      (cs : List F) (x : F) (ys : List F)
      → length cs ≤ length ys
      → Distinct k (x ∷ ys)
      → weigh k (x ∷ ys) (λ w. mul w (eval k cs w)) ≡ o
  unfolding weigh basis eval
  weigh-eval_zero [] x ys h d =
      ap (weigh k (x ∷ ys)) (fun_ext (λ w. Field.mul-zero k w)) ∙ weigh-zero k (x ∷ ys)
  weigh-eval_zero (c ∷ cs) x [] h d = absurd (omega arith)
  weigh-eval_zero (c ∷ cs) x (v ∷ vs) h d =
      ap (add (mul value (basis k x (v ∷ vs)))) (
        weigh_congr k (v ∷ vs) _ _ (All-map (peel c cs x) (v ∷ vs) d.0)
        ∙ weigh-add k (v ∷ vs) (λ w. mul value (ratio k x w))
            (λ w. mul x (mul w (eval k (quotient cs x) w)))
        ∙ ap₂ add
            (weigh-mul k value (v ∷ vs) (ratio k x) ∙ ap (mul value) (weigh-ratio k x v vs d.0 d.1))
            (weigh-mul k x (v ∷ vs) (λ w. mul w (eval k (quotient cs x) w))
              ∙ ap (mul x)
                  (weigh-eval_zero (quotient cs x) v vs (omega (arith, length-quotient cs x)) d.1)
              ∙ Field.mul-zero k x)
        ∙ Field.add-zero k _)
      ∙ add_self _
    where
      value : F
      value = mul x (eval k (c ∷ cs) x)

  -- The weighted sum of a polynomial at distinct points, one more than its degree at least, is its
  -- constant term.
  pub weigh-eval :
      (c : F) (cs : List F) (x : F) (ys : List F)
      → mul one c ≡ c
      → length cs ≤ length ys
      → Distinct k (x ∷ ys)
      → weigh k (x ∷ ys) (eval k (c ∷ cs)) ≡ c
  unfolding eval
  weigh-eval c cs x ys canonical h d =
      weigh k (x ∷ ys) (λ w. add (mul (eval k cs w) w) c)
      ≡⟨ ap (weigh k (x ∷ ys))
          (fun_ext (λ w. ap₂ add (mul_comm _ w) (sym canonical ∙ mul_comm one c))) ⟩
        weigh k (x ∷ ys) (λ w. add (mul w (eval k cs w)) (mul c one))
      ≡⟨ weigh-add k (x ∷ ys) (λ w. mul w (eval k cs w)) (λ w. mul c one) ⟩
        add (weigh k (x ∷ ys) (λ w. mul w (eval k cs w))) (weigh k (x ∷ ys) (λ w. mul c one))
      ≡⟨ ap₂ add (weigh-eval_zero cs x ys h d)
          (weigh-mul k c (x ∷ ys) (λ w. one) ∙ ap (mul c) (weigh-one k x ys d)) ⟩
        add o (mul c one)
      ≡⟨ zero-add _ ∙ mul_comm c one ∙ canonical ⟩ c ∎
