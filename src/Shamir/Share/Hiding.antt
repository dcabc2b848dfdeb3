-- ===== src/Shamir/Share/Hiding.antt =====
-- Fewer than k shares say nothing of the secret but its length.
use secretstash.Base.{
  ℕ, suc, ◌-◌, ◌<◌, ◌≤◌, ◌≡◌, ◌≢◌, sym, ap, ◌∙◌, subst, List, [], ◌∷◌, map, none, Bytes, length,
  length-map, get_or, All, arith,
}
use secretstash.Base.Result.{ok}
use secretstash.Shamir.Codec.{Codec, IsBytes}
use secretstash.Shamir.Gf.Instance.{IsUnit}
use secretstash.Shamir.Raw.{Rand}
use secretstash.Shamir.Raw.Split.{coordinates, share_at}
use secretstash.Shamir.Share.{render, split}
use secretstash.Shamir.Share.Splits.{Fills, Splits-split}
use secretstash.Shamir.Share.RoundTrip.{get_or-rendered}
use secretstash.Shamir.Share.Total.{split-polynomials}
use secretstash.Shamir.Share.Masks.{
  masks, masks-IsBytes, masked, masked_twice, masked-Fills, polynomials-masked,
}

picks-IsUnit :
    (n : ℕ) (picks : List ℕ) → n ≤ 255 → All (λ i. i < n) picks → All IsUnit (map suc picks)
picks-IsUnit n [] few below = tt
picks-IsUnit n (i ∷ picks) few below =
    let h = below.0 in (omega arith, picks-IsUnit n picks few below.1)

module _ (codec : Codec) where
  same_shares :
      (k n : ℕ) (ps qs : List Bytes) (picks : List ℕ)
      → n ≤ 255
      → All (λ i. i < n) picks
      → All (λ x. share_at qs x ≡ share_at ps x) (map suc picks)
      → All
          (λ i.
            get_or (map (render codec k) (map (share_at qs) (coordinates 0 n))) i []
            ≡ get_or (map (render codec k) (map (share_at ps) (coordinates 0 n))) i [])
          picks
  same_shares k n ps qs [] few below same = tt
  same_shares k n ps qs (i ∷ picks) few below same = (
    get_or-rendered codec (λ i m. none) k qs n i few below.0
        ∙ ap (render codec k) same.0
        ∙ sym (get_or-rendered codec (λ i m. none) k ps n i few below.0),
    same_shares k n ps qs picks few below.1 same.1,
  )

  -- What is masked out of a random source, so that Split of `other` returns the same shares at these
  -- positions as Split of `secret` before: it depends on the secrets, the threshold and the positions only.
  abbrev pub mask_for : ℕ → List ℕ → Bytes → Bytes → Rand → Rand
  mask_for k picks secret other = masked (masks (k - 1) (map suc picks) secret other)

  -- For two secrets of one length and fewer than k positions there is a mask for the random source that does
  -- not depend on what the source draws: whenever Split returns shares of the one secret, Split returns, with
  -- the masked source, shares of the other that are the same at these positions. Masking twice changes nothing.
  -- The random source fills slices with bytes, and so does the masked one.
  pub split-mask_for :
      (secret other : Bytes) (n k : ℕ) (picks : List ℕ) (rand : Rand) (shares : List Bytes)
      → IsBytes secret
      → IsBytes other
      → length other ≡ length secret
      → All (λ i. i < n) picks
      → length picks < k
      → Fills rand
      → split codec rand secret n k ≡ ok shares
      → Fills (mask_for k picks secret other rand)
        × ((i m : ℕ)
            → mask_for k picks secret other (mask_for k picks secret other rand) i m ≡ rand i m)
        × ((shares' : List Bytes) × (split codec (mask_for k picks secret other rand) other n k
              ≡ ok shares')
            × All (λ i. get_or shares' i [] ≡ get_or shares i []) picks)
  split-mask_for secret other n k picks rand shares b b' len below fewer fills e =
      let s = Splits-split codec rand secret n k e in
      let xs = map suc picks in
      let ms = masks (k - 1) xs secret other in
      let (polys', drawn, same) =
        polynomials-masked k xs (omega (arith, length-map suc picks))
          (picks-IsUnit n picks s.few below) rand secret other s.polys fills b b' len s.drawn in
      (
        masked-Fills ms rand (masks-IsBytes (k - 1) xs secret other) fills,
        masked_twice ms rand,
        (
          map (render codec k) (map (share_at polys') (coordinates 0 n)),
          split-polynomials codec (masked ms rand) other n k polys'
              (nonempty other secret len s.some_secret) s.low s.high s.few drawn,
          subst
              (λ l.
                All
                  (λ i.
                    get_or (map (render codec k) (map (share_at polys') (coordinates 0 n))) i []
                    ≡ get_or l i [])
                  picks)
              (sym s.rendered) (same_shares k n s.polys polys' picks s.few below same),
        ),
      )
    where
      nonempty : (s t : Bytes) → length s ≡ length t → t ≢ [] → s ≢ []
      nonempty [] [] h q = q
      nonempty [] (y ∷ t) h q = absurd (omega arith)
      nonempty (x ∷ s) t h q = λ p. cc

  -- Fewer than k of the shares that Split returns fit every secret of the same length: for each there are
  -- random bytes with which Split returns the same shares at these positions. The random source fills
  -- slices with bytes.
  pub split-alike :
      (rand : Rand) (secret other : Bytes) (n k : ℕ) (shares : List Bytes) (picks : List ℕ)
      → Fills rand
      → IsBytes secret
      → IsBytes other
      → length other ≡ length secret
      → split codec rand secret n k ≡ ok shares
      → All (λ i. i < n) picks
      → length picks < k
      → (rand' : Rand) × (shares' : List Bytes) × Fills rand'
        × (split codec rand' other n k ≡ ok shares')
        × All (λ i. get_or shares' i [] ≡ get_or shares i []) picks
  split-alike rand secret other n k shares picks fills b b' len e below fewer =
      let (f, twice, (shares', r, same)) =
        split-mask_for secret other n k picks rand shares b b' len below fewer fills e in
      (mask_for k picks secret other rand, shares', f, r, same)
