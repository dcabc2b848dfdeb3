-- ===== src/Shamir/Share/Total.antt =====
-- When Split succeeds.
use secretstash.Base.{
  ℕ, zero, suc, ◌-◌, ◌≤◌, ◌≡◌, ◌≢◌, refl, ap, ◌∙◌, List, [], ◌∷◌, map, some, false, ◌||◌, Bytes,
  length, arith, ◌==◌, ltb, length-map,
}
use secretstash.Base.Result.{ok}
use secretstash.Shamir.Codec.{Codec}
use secretstash.Shamir.Raw.{Rand}
use secretstash.Shamir.Raw.Split.{coordinates, polynomials, share_at, split_raw-share_at}
use secretstash.Shamir.Share.{render, split}

-- Every draw succeeds.
abbrev pub Draws : Rand → Type 0
Draws rand = (i n : ℕ) → (r : Bytes) × (rand i n ≡ some r)

polynomials-total :
    (rand : Rand) (k bi : ℕ) (secret : Bytes)
    → Draws rand
    → (polys : List Bytes) × (polynomials rand k bi secret ≡ some polys)
unfolding polynomials
polynomials-total rand k bi [] d = ([], refl)
polynomials-total rand k bi (sb ∷ secret) d =
    let (r, e) = d bi (k - 1) in
    let (ps, f) = polynomials-total rand k (suc bi) secret d in
    ((sb ∷ r) ∷ ps, rw (e, polynomials, f) refl)

length-coordinates : (i n : ℕ) → length (coordinates i n) ≡ n
unfolding coordinates
length-coordinates i zero = refl
length-coordinates i (suc n) = ap suc (length-coordinates (suc i) n)

module _ (codec : Codec) where
  -- What Split returns for the polynomials that it draws.
  pub split-polynomials :
      (rand : Rand) (secret : Bytes) (n k : ℕ) (polys : List Bytes)
      → secret ≢ []
      → 2 ≤ k
      → k ≤ n
      → n ≤ 255
      → polynomials rand k 0 secret ≡ some polys
      → split codec rand secret n k
        ≡ ok (map (render codec k) (map (share_at polys) (coordinates 0 n)))
  unfolding split
  split-polynomials rand [] n k polys s low high few e = absurd (s refl)
  split-polynomials rand (sb ∷ secret) n k polys s low high few e =
      rw
        (
          (let e1 : (suc (length secret) == 0) ≡ false = ground arith in e1),
          (let e2 : (ltb k 2 || ltb n k) ≡ false = ground arith in e2),
          (let e3 : ltb 255 n ≡ false = ground arith in e3),
          split_raw-share_at rand (sb ∷ secret) n k,
          e,
        )
        refl

  -- With 2 ≤ k ≤ n ≤ 255, a secret that is not empty and random bytes at hand, Split returns n
  -- shares.
  pub split_total :
      (rand : Rand) (secret : Bytes) (n k : ℕ)
      → Draws rand
      → secret ≢ []
      → 2 ≤ k
      → k ≤ n
      → n ≤ 255
      → (shares : List Bytes) × (split codec rand secret n k ≡ ok shares) × (length shares ≡ n)
  split_total rand secret n k d s low high few =
      let (polys, e) = polynomials-total rand k 0 secret d in
      let raw = map (share_at polys) (coordinates 0 n) in
      (
        map (render codec k) raw,
        split-polynomials rand secret n k polys s low high few e,
        length-map (render codec k) raw
            ∙ length-map (share_at polys) (coordinates 0 n)
            ∙ length-coordinates 0 n,
      )
