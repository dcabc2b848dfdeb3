-- ===== src/Shamir/Lagrange/Product.antt =====
-- The basis polynomial as the one quotient of products that the program computes.
use secretstash.Base.{◌≡◌, sym, ap, ap₂, ◌∙◌, List, [], ◌∷◌, All}
use secretstash.Shamir.Field.{Field}
use secretstash.Shamir.Field
use secretstash.Shamir.Lagrange.{Apart, basis}

module _ (k : Field) where
  open k use {
    F, zero as o, one, add, mul, inv, IsUnit, add_assoc, add_comm, add_self, zero-add, mul_assoc,
    mul_comm, mul-add, one-mul_mul, one-mul_inv, one-one, mul-inv,
  }

  -- The basis polynomial as one quotient of products, as the program computes it.
  unfoldable pub product : List F → F
  product [] = one
  product (w ∷ ws) = mul w (product ws)

  unfoldable pub differences : F → List F → List F
  differences x [] = []
  differences x (w ∷ ws) = add x w ∷ differences x ws

  IsUnit-product : (x : F) (ws : List F) → All (Apart k x) ws → IsUnit (product (differences x ws))
  unfolding product differences
  IsUnit-product x [] a = k.IsUnit-one
  IsUnit-product x (w ∷ ws) a = k.IsUnit-mul _ _ a.0 (IsUnit-product x ws a.1)

  basis-mul-product :
      (x : F) (ws : List F)
      → All (Apart k x) ws
      → mul (basis k x ws) (product (differences x ws)) ≡ product ws
  unfolding basis product differences
  basis-mul-product x [] a = one-one
  basis-mul-product x (w ∷ ws) a =
      regroup w (inv (add x w)) (basis k x ws) (add x w) (product (differences x ws))
      ∙ ap₂ (λ s t. mul s (mul w t)) (mul-inv _ a.0) (basis-mul-product x ws a.1)
      ∙ one-mul_mul _ _
    where
      regroup : (p i b s q : F) → mul (mul (mul p i) b) (mul s q) ≡ mul (mul s i) (mul p (mul b q))
      regroup p i b s q = simp (mul_assoc, mul_comm, Field.mul_left_comm k)

  pub basis-quotient :
      (x : F) (ws : List F)
      → All (Apart k x) ws
      → mul (product ws) (inv (product (differences x ws))) ≡ basis k x ws
  unfolding basis
  basis-quotient x ws a =
      ap (λ t. mul t (inv (product (differences x ws)))) (sym (basis-mul-product x ws a))
      ∙ mul_assoc _ _ _
      ∙ ap (mul (basis k x ws)) (mul-inv _ (IsUnit-product x ws a))
      ∙ canonical ws
    where
      canonical : (ws : List F) → mul (basis k x ws) one ≡ basis k x ws
      canonical [] = one-one
      canonical (w ∷ rest) = mul_comm _ one ∙ one-mul_mul _ _
