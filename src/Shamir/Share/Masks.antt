-- ===== src/Shamir/Share/Masks.antt =====
-- Masks for the random bytes of splitRaw that change the secret, and not the shares at given coordinates.
use mathlib.Core.Option
use secretstash.Base.{
  ℕ, zero, suc, ◌-◌, ◌≤◌, ◌≡◌, refl, sym, ap, ap₂, ◌∙◌, subst, bit_xor, List, [], ◌∷◌, Option, none,
  some, Bytes, length, All, arith,
}
use secretstash.Shamir.Codec.{IsBytes}
use secretstash.Shamir.Gf.{gf_eval}
use secretstash.Shamir.Gf.Instance.{IsUnit}
use secretstash.Shamir.Raw.{Rand}
use secretstash.Shamir.Raw.Split.{polynomials, share_at}
use secretstash.Shamir.Raw.Vanishing.{
  vanish, vanish-IsBytes, sum, length-sum, sum-IsBytes, sum_twice, gf_eval-masked,
}
use secretstash.Shamir.Share.Splits.{Fills, draw_split}

-- A mask for each byte of the secret: the polynomial with m coefficients that is zero at these coordinates,
-- and whose constant term is the difference of the secrets.
pub masks : ℕ → Bytes → Bytes → Bytes → List Bytes
masks m xs [] other = []
masks m xs (s ∷ secret) [] = []
masks m xs (s ∷ secret) (t ∷ other) = vanish (bit_xor s t) m xs ∷ masks m xs secret other

pub masks-IsBytes : (m : ℕ) (xs secret other : Bytes) → All IsBytes (masks m xs secret other)
unfolding masks
masks-IsBytes m xs [] other = tt
masks-IsBytes m xs (s ∷ secret) [] = tt
masks-IsBytes m xs (s ∷ secret) (t ∷ other) =
    (vanish-IsBytes (bit_xor s t) m xs, masks-IsBytes m xs secret other)

-- A random source with these masks on its first draws.
pub masked : List Bytes → Rand → Rand
masked [] rand i n = rand i n
masked (m ∷ ms) rand zero n = Option.map (λ r. sum r m) (rand zero n)
masked (m ∷ ms) rand (suc i) n = masked ms (λ j. rand (suc j)) i n

pub masked_twice :
    (ms : List Bytes) (rand : Rand) (i n : ℕ) → masked ms (masked ms rand) i n ≡ rand i n
unfolding masked
masked_twice [] rand i n = refl
masked_twice (m ∷ ms) rand zero n = undone (rand zero n)
  where
    undone : (o : Option Bytes) → Option.map (λ r. sum r m) (Option.map (λ r. sum r m) o) ≡ o
    undone none = refl
    undone (some r) = ap some (sum_twice r m)
masked_twice (m ∷ ms) rand (suc i) n = masked_twice ms (λ j. rand (suc j)) i n

pub masked-Fills :
    (ms : List Bytes) (rand : Rand) → All IsBytes ms → Fills rand → Fills (masked ms rand)
unfolding masked
masked-Fills [] rand b f i n r h = f i n r h
masked-Fills (m ∷ ms) rand b f zero n r h = drawn (rand zero n) refl h
  where
    drawn :
        (o : Option Bytes)
        → rand zero n ≡ o
        → Option.map (λ r. sum r m) o ≡ some r
        → IsBytes r × (length r ≡ n)
    drawn none q k = cc
    drawn (some r') q k =
        let g = f zero n r' q in
        let same : sum r' m ≡ r = cc in
        subst (λ t. IsBytes t × (length t ≡ n)) same
          (sum-IsBytes r' m g.0 b.0, length-sum r' m ∙ g.1)
masked-Fills (m ∷ ms) rand b f (suc i) n r h =
    masked-Fills ms (λ j. rand (suc j)) b.1 (λ j. f (suc j)) i n r h

polynomials-suc :
    (rand : Rand) (k bi : ℕ) (secret : Bytes)
    → polynomials rand k (suc bi) secret ≡ polynomials (λ i. rand (suc i)) k bi secret
unfolding polynomials
polynomials-suc rand k bi [] = refl
polynomials-suc rand k bi (sb ∷ secret) =
    ap
      (λ (rest : Option (List Bytes)). elim (rand (suc bi) (k - 1)) [
        | none ↦ none
        | some r ↦ Option.map (◌∷◌ (sb ∷ r)) rest
      ])
      (polynomials-suc rand k (suc bi) secret)

same_cons :
    (q p : Bytes) (qs ps : List Bytes) (xs : Bytes)
    → All (λ x. gf_eval q x ≡ gf_eval p x) xs
    → All (λ x. share_at qs x ≡ share_at ps x) xs
    → All (λ x. share_at (q ∷ qs) x ≡ share_at (p ∷ ps) x) xs
unfolding share_at
same_cons q p qs ps [] h t = tt
same_cons q p qs ps (x ∷ xs) h t = (ap₂ ◌∷◌ h.0 t.0, same_cons q p qs ps xs h.1 t.1)

same_nil : (xs : Bytes) → All (λ x. share_at [] x ≡ share_at [] x) xs
same_nil [] = tt
same_nil (x ∷ xs) = (refl, same_nil xs)

-- The polynomials of the other secret, drawn from the masked source, have the same values.
module _ (k : ℕ) (xs : Bytes) (few : length xs ≤ k - 1) (units : All IsUnit xs) where
  pub polynomials-masked :
      (rand : Rand) (secret other : Bytes) (polys : List Bytes)
      → Fills rand
      → IsBytes secret
      → IsBytes other
      → length other ≡ length secret
      → polynomials rand k 0 secret ≡ some polys
      → (polys' : List Bytes) × (polynomials (masked (masks (k - 1) xs secret other) rand) k 0 other
          ≡ some polys')
        × All (λ x. share_at polys' x ≡ share_at polys x) xs
  unfolding polynomials masks masked
  polynomials-masked rand [] [] polys f b b' len e = (
    [],
    refl,
    subst (λ ps. All (λ x. share_at [] x ≡ share_at ps x) xs) (none_drawn e) (same_nil xs),
  )
    where
      none_drawn : ◌≡◌ {A = Option (List Bytes)} (some []) (some polys) → [] ≡ polys
      none_drawn h = cc
  polynomials-masked rand [] (t ∷ other) polys f b b' len e = absurd (omega arith)
  polynomials-masked rand (s ∷ secret) [] polys f b b' len e = absurd (omega arith)
  polynomials-masked rand (s ∷ secret) (t ∷ other) polys f b b' len e =
      let m = vanish (bit_xor s t) (k - 1) xs in
      let ms = masks (k - 1) xs secret other in
      let (r, ps, d, rest, same) = draw_split s (rand 0 (k - 1)) (polynomials rand k 1 secret) e in
      let g = f 0 (k - 1) r d in
      let (qs, drawn, equal) =
        polynomials-masked (λ j. rand (suc j)) secret other ps (λ j. f (suc j)) b.1 b'.1
          (omega arith) (sym (polynomials-suc rand k 0 secret) ∙ rest) in
      (
        (t ∷ sum r m) ∷ qs,
        ap₂
            (λ (o : Option Bytes) (next : Option (List Bytes)). elim o [
              | none ↦ none
              | some q ↦ Option.map (◌∷◌ (t ∷ q)) next
            ])
            (ap (Option.map (λ q. sum q m)) d)
            (polynomials-suc (masked (m ∷ ms) rand) k 0 other ∙ drawn),
        subst (λ l. All (λ x. share_at ((t ∷ sum r m) ∷ qs) x ≡ share_at l x) xs) same
            (same_cons (t ∷ sum r m) (s ∷ r) qs ps xs
              (gf_eval-masked s r t (k - 1) xs b.0 b'.0 g.1 few units) equal),
      )
