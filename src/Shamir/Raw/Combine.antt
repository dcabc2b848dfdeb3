-- ===== src/Shamir/Raw/Combine.antt =====
-- combineRaw computes the Lagrange sum, and so undoes the evaluation of polynomials.
use mathlib.Core.Path.{fun_ext}
use mathlib.Core.List.{append_assoc, map-append}
use secretstash.Base.{
  ℕ, suc, ◌<◌, ◌≡◌, refl, sym, ap, ap₂, ◌∙◌, subst, bit_xor, List, [], ◌∷◌, ◌++◌, map, Bytes,
  length, get_or, All, arith, get_or-append, length-append, length-map,
}
use secretstash.Base.Bits.{xor_assoc, xor-zero, zero-xor}
use secretstash.Shamir.Gf.{gf_mul, gf_inv, gf_eval}
use secretstash.Shamir.Gf.Laws.{one-gf_mul}
use secretstash.Shamir.Gf.Instance.{gf, eval-gf_eval, gf_eval-lt}
use secretstash.Shamir.Lagrange.{Distinct, basis, weigh}
use secretstash.Shamir.Lagrange.Polynomial.{weigh-eval}
use secretstash.Shamir.Lagrange.Sum.{sum_from, sum-weigh}
use secretstash.Shamir.Raw.{products, interpolate, combine_loop, combine_raw}
use secretstash.Shamir.Raw.Split.{share_at}
use secretstash.Shamir.Raw.Products.{basis-products}

-- One round of the loop over the shares.
round :
    (bi i x : ℕ) (share : Bytes) (shares : List Bytes) (all pre ys : Bytes) (acc value : ℕ)
    → i ≡ length pre
    → all ≡ pre ++ x ∷ ys
    → get_or share bi 0 ≡ value
    → Distinct gf all
    → interpolate all bi i (share ∷ shares) acc
      ≡ interpolate all bi (suc i) shares (bit_xor acc (gf_mul value (basis gf x (pre ++ ys))))
unfolding interpolate
round bi i x share shares all pre ys acc value e f g d =
    ap (λ t. interpolate all bi (suc i) shares (bit_xor acc t))
      (ap₂ gf_mul g (
        ap (λ (q : ℕ × ℕ). gf_mul q.0 (gf_inv q.1))
          (ap (λ t. products i t 0 all 1 1) point ∙ ap₂ (λ j l. products j x 0 l 1 1) e f)
        ∙ basis-products pre x ys (subst (Distinct gf) f d)))
  where
    point : get_or all i 0 ≡ x
    point = ap₂ (λ l j. get_or l j 0) f e ∙ get_or-append pre x ys 0

-- The loop over the shares adds up the Lagrange sum.
interpolate-sum_from :
    (bi i : ℕ) (row : ℕ → Bytes) (f : ℕ → ℕ) (all pre ys : Bytes) (acc : ℕ)
    → i ≡ length pre
    → all ≡ pre ++ ys
    → ((x : ℕ) → get_or (row x) bi 0 ≡ f x)
    → Distinct gf all
    → interpolate all bi i (map row ys) acc ≡ bit_xor acc (sum_from gf pre ys f)
unfolding sum_from
interpolate-sum_from bi i row f all pre [] acc e g h d = unfold interpolate in sym (xor-zero acc)
interpolate-sum_from bi i row f all pre (x ∷ ys) acc e g h d =
    round bi i x (row x) (map row ys) all pre ys acc (f x) e g (h x) d
    ∙ interpolate-sum_from bi (suc i) row f all (pre ++ x ∷ []) ys _
        (omega (arith, length-append pre (x ∷ []))) (g ∙ sym (append_assoc pre (x ∷ []) ys)) h d
    ∙ xor_assoc acc _ _

-- A polynomial of bytes with at most this many coefficients, the constant term included.
abbrev pub IsPolynomial : ℕ → Bytes → Type 0
IsPolynomial n [] = ⊥
IsPolynomial n (c ∷ cs) = (c < 256) × All (λ c'. c' < 256) cs × (length cs < n)

-- The constant terms.
abbrev pub constant : Bytes → ℕ
constant p = get_or p 0 0

interpolate-constant :
    (bi : ℕ) (row : ℕ → Bytes) (p : Bytes) (x : ℕ) (ys : Bytes)
    → ((w : ℕ) → get_or (row w) bi 0 ≡ gf_eval p w)
    → IsPolynomial (length (x ∷ ys)) p
    → Distinct gf (x ∷ ys)
    → interpolate (x ∷ ys) bi 0 (map row (x ∷ ys)) 0 ≡ constant p
interpolate-constant bi row [] x ys h q d = absurd q
interpolate-constant bi row (c ∷ cs) x ys h q d =
    interpolate-sum_from bi 0 row (gf_eval (c ∷ cs)) (x ∷ ys) [] (x ∷ ys) 0 refl refl h d
    ∙ zero-xor _
    ∙ sum-weigh gf (x ∷ ys) (gf_eval (c ∷ cs))
        (λ w. one-gf_mul _ (gf_eval-lt (c ∷ cs) w (q.0, q.1)))
    ∙ ap (weigh gf (x ∷ ys)) (fun_ext (λ w. sym (eval-gf_eval (c ∷ cs) w)))
    ∙ weigh-eval gf c cs x ys (one-gf_mul c q.0) (omega arith) d

-- The value of the polynomial after `done` stands behind the values of `done`.
get_or-share_at :
    (done : List Bytes) (p : Bytes) (rest : List Bytes) (x : ℕ)
    → get_or (share_at (done ++ p ∷ rest) x) (length done) 0 ≡ gf_eval p x
unfolding share_at
get_or-share_at done p rest x =
    ap₂ (λ l i. get_or l i 0)
      (ap (λ t. t ++ x ∷ []) (map-append (λ q. gf_eval q x) done (p ∷ rest))
        ∙ append_assoc (map (λ q. gf_eval q x) done) (gf_eval p x ∷ map (λ q. gf_eval q x) rest)
            (x ∷ []))
      (sym (length-map (λ q. gf_eval q x) done))
    ∙ get_or-append (map (λ q. gf_eval q x) done) (gf_eval p x) _ 0

combine_loop-constants :
    (bi : ℕ) (polys done rest : List Bytes) (x : ℕ) (ys : Bytes)
    → bi ≡ length done
    → polys ≡ done ++ rest
    → All (IsPolynomial (length (x ∷ ys))) rest
    → Distinct gf (x ∷ ys)
    → combine_loop (x ∷ ys) (map (share_at polys) (x ∷ ys)) bi (length rest) ≡ map constant rest
unfolding combine_loop
combine_loop-constants bi polys done [] x ys e f a d = refl
combine_loop-constants bi polys done (p ∷ rest) x ys e f a d =
    ap₂ ◌∷◌
      (interpolate-constant bi (share_at polys) p x ys
        (λ w. ap₂ (λ l i. get_or (share_at l w) i 0) f e ∙ get_or-share_at done p rest w) a.0 d)
      (combine_loop-constants (suc bi) polys (done ++ p ∷ []) rest x ys
        (omega (arith, length-append done (p ∷ []))) (f ∙ sym (append_assoc done (p ∷ []) rest)) a.1
        d)

-- The coordinate stands behind the body.
get_or-share_at_last : (polys : List Bytes) (x : ℕ) → get_or (share_at polys x) (length polys) 0 ≡ x
unfolding share_at
get_or-share_at_last polys x =
    ap (λ i. get_or (share_at polys x) i 0) (sym (length-map (λ q. gf_eval q x) polys))
    ∙ get_or-append (map (λ q. gf_eval q x) polys) x [] 0

length-share_at : (polys : List Bytes) (x : ℕ) → length (share_at polys x) ≡ suc (length polys)
unfolding share_at
length-share_at polys x =
    length-append (map (λ q. gf_eval q x) polys) (x ∷ [])
    ∙ omega (arith, length-map (λ q. gf_eval q x) polys)

coordinates_read :
    (polys : List Bytes) (xs : Bytes)
    → map (λ s. get_or s (length polys) 0) (map (share_at polys) xs) ≡ xs
coordinates_read polys [] = refl
coordinates_read polys (x ∷ xs) = ap₂ ◌∷◌ (get_or-share_at_last polys x) (coordinates_read polys xs)

-- combineRaw on the shares of some polynomials at distinct points returns their constant terms, if
-- there are at least as many points as coefficients.
pub combine_raw-share_at :
    (polys : List Bytes) (x : ℕ) (ys : Bytes)
    → All (IsPolynomial (length (x ∷ ys))) polys
    → Distinct gf (x ∷ ys)
    → combine_raw (map (share_at polys) (x ∷ ys)) ≡ map constant polys
unfolding combine_raw
combine_raw-share_at polys x ys a d =
    ap (λ n. combine_loop (map (λ s. get_or s n 0) rows) rows 0 n)
      (omega (arith, length-share_at polys x))
    ∙ ap (λ l. combine_loop l rows 0 (length polys)) (coordinates_read polys (x ∷ ys))
    ∙ combine_loop-constants 0 polys [] polys x ys refl refl a d
  where
    rows : List Bytes
    rows = map (share_at polys) (x ∷ ys)
