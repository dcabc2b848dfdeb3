-- ===== src/Shamir/Lagrange/Sum.antt =====
-- The weighted sum as the program forms it: each point against all the points before and after it.
use mathlib.Core.Path.{fun_ext}
use secretstash.Base.{◌≡◌, refl, sym, ap, ap₂, ◌∙◌, List, [], ◌∷◌, ◌++◌}
use secretstash.Shamir.Field.{Field}
use secretstash.Shamir.Lagrange.{ratio, basis, weigh}

module _ (k : Field) where
  open k use {F, zero as o, one, add, mul, mul_assoc, mul_comm, one-mul_mul, one-one}

  -- The points of `pre` are done, and those of the list are left.
  unfoldable pub sum_from : List F → List F → (F → F) → F
  sum_from pre [] f = o
  sum_from pre (x ∷ ys) f = add (mul (f x) (basis k x (pre ++ ys))) (sum_from (pre ++ x ∷ []) ys f)

  one-mul-basis : (x : F) (ys : List F) → mul one (basis k x ys) ≡ basis k x ys
  unfolding basis
  one-mul-basis x [] = one-one
  one-mul-basis x (w ∷ ys) = one-mul_mul _ _

  basis-append :
      (x : F) (pre ys : List F) → basis k x (pre ++ ys) ≡ mul (basis k x pre) (basis k x ys)
  unfolding basis
  basis-append x [] ys = sym (one-mul-basis x ys)
  basis-append x (w ∷ pre) ys =
      ap (mul (ratio k x w)) (basis-append x pre ys) ∙ sym (mul_assoc _ _ _)

  basis-snoc :
      (w x : F) (pre : List F) → basis k w (pre ++ x ∷ []) ≡ mul (basis k w pre) (ratio k w x)
  unfolding basis
  basis-snoc w x pre =
      basis-append w pre (x ∷ []) ∙ ap (mul (basis k w pre)) (mul_comm _ one ∙ one-mul_mul _ _)

  sum_from-weigh :
      (pre ys : List F) (f : F → F)
      → sum_from pre ys f ≡ weigh k ys (λ w. mul (f w) (basis k w pre))
  unfolding sum_from weigh
  sum_from-weigh pre [] f = refl
  sum_from-weigh pre (x ∷ ys) f =
      ap₂ add (ap (mul (f x)) (basis-append x pre ys) ∙ sym (mul_assoc _ _ _)) (
        sum_from-weigh (pre ++ x ∷ []) ys f
        ∙ ap (weigh k ys)
            (fun_ext (λ w. ap (mul (f w)) (basis-snoc w x pre) ∙ sym (mul_assoc _ _ _))))

  pub sum-weigh :
      (ys : List F) (f : F → F) → ((w : F) → mul one (f w) ≡ f w) → sum_from [] ys f ≡ weigh k ys f
  unfolding basis
  sum-weigh ys f h =
      sum_from-weigh [] ys f ∙ ap (weigh k ys) (fun_ext (λ w. mul_comm (f w) one ∙ h w))
