-- ===== src/Shamir/Share/RoundTrip.antt =====
-- Any k of the shares that Split returns give the secret back.
use mathlib.Core.List.{map-map}
use secretstash.Base.{
  ℕ, zero, suc, ◌+◌, ◌≤◌, ◌<◌, ◌≡◌, ◌≢◌, refl, sym, ap, ap₂, ◌∙◌, List, [], ◌∷◌, ◌++◌, map, Bytes,
  length, take, get_or, All, All-map, arith, length-map, take-length-append, length-append,
  get_or-append,
}
use secretstash.Base.Bits.{xor_ne}
use secretstash.Shamir.Codec.{Codec, IsBytes}
use secretstash.Shamir.Gf.{u8, gf_eval}
use secretstash.Shamir.Gf.Instance.{gf, gf_eval-lt}
use secretstash.Shamir.Lagrange.{Apart, Distinct}
use secretstash.Shamir.Raw.{Rand, combine_raw}
use secretstash.Shamir.Raw.Split.{coordinates, share_at}
use secretstash.Shamir.Raw.Combine.{IsPolynomial, combine_raw-share_at}
use secretstash.Base.Result.{ok}
use secretstash.Shamir.Share.{encode_share, render, split, combine}
use secretstash.Shamir.Share.Combine.{Separate, IsCoordinate, IsBody, combine-encode_share}
use secretstash.Shamir.Share.Splits.{Fills, Hides, Hides-polynomials, Splits, Splits-split}

IsPolynomial-mono : (m n : ℕ) → m ≤ n → (p : Bytes) → IsPolynomial m p → IsPolynomial n p
IsPolynomial-mono m n h [] q = q
IsPolynomial-mono m n h (c ∷ cs) q = (q.0, q.1, omega arith)

get_or-coordinates :
    (f : ℕ → Bytes) (i n j : ℕ) → j < n → get_or (map f (coordinates i n)) j [] ≡ f (u8 (i + j + 1))
unfolding coordinates
get_or-coordinates f i zero j h = absurd (omega arith)
get_or-coordinates f i (suc n) zero h = ap (λ t. f (u8 t)) (omega arith)
get_or-coordinates f i (suc n) (suc j) h =
    get_or-coordinates f (suc i) n j (omega arith) ∙ ap (λ t. f (u8 t)) (omega arith)

module _ (codec : Codec) (rand : Rand) where
  -- The body of the share at x.
  body_at : List Bytes → ℕ → Bytes
  body_at polys x = map (λ p. gf_eval p x) polys

  render-share_at :
      (k : ℕ) (polys : List Bytes) (x : ℕ)
      → render codec k (share_at polys x) ≡ encode_share codec k x (body_at polys x)
  unfolding render share_at body_at
  render-share_at k polys x =
      ap (λ m. encode_share codec k (get_or row m 0) (take m row))
        (omega (arith, length-append (body_at polys x) (x ∷ [])))
      ∙ ap₂ (encode_share codec k) (get_or-append (body_at polys x) x [] 0)
          (take-length-append (body_at polys x) (x ∷ []))
    where
      row : Bytes
      row = body_at polys x ++ x ∷ []

  body_at-IsBytes :
      (k : ℕ) (polys : List Bytes) (x : ℕ) → All (IsPolynomial k) polys → IsBytes (body_at polys x)
  unfolding body_at
  body_at-IsBytes k [] x h = tt
  body_at-IsBytes k ([] ∷ polys) x h = absurd h.0
  body_at-IsBytes k ((c ∷ cs) ∷ polys) x h =
      (gf_eval-lt (c ∷ cs) x (h.0.0, h.0.1), body_at-IsBytes k polys x h.1)

  Distinct-Separate : (xs : List ℕ) → All IsCoordinate xs → Separate xs → Distinct gf xs
  Distinct-Separate [] c s = tt
  Distinct-Separate (x ∷ xs) c s = (apart xs c.1 s.0, Distinct-Separate xs c.1 s.1)
    where
      apart : (ys : List ℕ) → All IsCoordinate ys → All (λ y. y ≢ x) ys → All (Apart gf x) ys
      apart [] d t = tt
      apart (y ∷ ys) d t =
          (xor_ne x y (omega arith) (omega arith) (λ e. t.0 (sym e)), apart ys d.1 t.1)

  -- The share with the index i, of the texts that Split returns.
  pub get_or-rendered :
      (k : ℕ) (polys : List Bytes) (n i : ℕ)
      → n ≤ 255
      → i < n
      → get_or (map (render codec k) (map (share_at polys) (coordinates 0 n))) i []
        ≡ render codec k (share_at polys (suc i))
  get_or-rendered k polys n i few lt =
      ap (λ l. get_or l i []) (map-map (render codec k) (share_at polys) (coordinates 0 n))
      ∙ get_or-coordinates (λ x. render codec k (share_at polys x)) 0 n i lt
      ∙ ap (λ x. render codec k (share_at polys x)) (omega arith)

  -- The shares that were picked, as encoded shares at their coordinates.
  picked :
      (secret : Bytes) (n k : ℕ) (shares : List Bytes) (s : Splits codec rand secret n k shares)
      (picks : List ℕ)
      → All (λ i. i < n) picks
      → map (λ i. get_or shares i []) picks
        ≡ map (λ x. encode_share codec k x (body_at s.polys x)) (map suc picks)
  picked secret n k shares s [] h = refl
  picked secret n k shares s (i ∷ picks) h =
      ap₂ ◌∷◌
        (ap (λ l. get_or l i []) s.rendered
          ∙ get_or-rendered k s.polys n i s.few h.0
          ∙ render-share_at k s.polys (suc i))
        (picked secret n k shares s picks h.1)

  picks-IsCoordinate :
      (n : ℕ) (picks : List ℕ) → n ≤ 255 → All (λ i. i < n) picks → All IsCoordinate (map suc picks)
  picks-IsCoordinate n [] h a = tt
  picks-IsCoordinate n (i ∷ picks) h a =
      let lt = a.0 in ((omega arith, omega arith), picks-IsCoordinate n picks h a.1)

  picks-Separate : (picks : List ℕ) → Separate picks → Separate (map suc picks)
  picks-Separate [] s = tt
  picks-Separate (i ∷ picks) s = (others picks s.0, picks-Separate picks s.1)
    where
      others : (ps : List ℕ) → All (λ j. j ≢ i) ps → All (λ j. j ≢ suc i) (map suc ps)
      others [] a = tt
      others (j ∷ ps) a = (λ e. a.0 (omega arith), others ps a.1)

  point-share_at :
      (polys : List Bytes) (xs : List ℕ)
      → All IsCoordinate xs
      → map (λ x. body_at polys x ++ u8 x ∷ []) xs ≡ map (share_at polys) xs
  unfolding body_at share_at
  point-share_at polys [] c = refl
  point-share_at polys (x ∷ xs) c =
      ap₂ ◌∷◌ (ap (λ t. map (λ p. gf_eval p x) polys ++ t ∷ []) (let h = c.0 in omega arith))
        (point-share_at polys xs c.1)

  combine_raw-points :
      (k : ℕ) (secret : Bytes) (polys : List Bytes) (xs : List ℕ)
      → Hides k secret polys
      → 1 ≤ k
      → k ≤ length xs
      → All IsCoordinate xs
      → Separate xs
      → combine_raw (map (λ x. body_at polys x ++ u8 x ∷ []) xs) ≡ secret
  combine_raw-points k secret polys [] hides hk h c s = absurd (omega arith)
  combine_raw-points k secret polys (x ∷ ys) hides hk h c s =
      ap combine_raw (point-share_at polys (x ∷ ys) c)
      ∙ combine_raw-share_at polys x ys
          (All-map (IsPolynomial-mono k (length (x ∷ ys)) h) polys hides.polynomial)
          (Distinct-Separate (x ∷ ys) c s)
      ∙ hides.constants

  length-body_at : (polys : List Bytes) (x : ℕ) → length (body_at polys x) ≡ length polys
  unfolding body_at
  length-body_at polys x = length-map (λ p. gf_eval p x) polys

  nonempty_of_length : (s t : Bytes) → length s ≡ length t → t ≢ [] → s ≢ []
  nonempty_of_length s [] e n q = n refl
  nonempty_of_length [] (y ∷ t) e n q = absurd (omega arith)
  nonempty_of_length (x ∷ s) (y ∷ t) e n q = cc

  are_bodies :
      (k : ℕ) (polys : List Bytes) (secret : Bytes) (xs : List ℕ)
      → Hides k secret polys
      → secret ≢ []
      → All IsCoordinate xs
      → All (IsBody codec k (length secret) (body_at polys)) xs
  are_bodies k polys secret [] h n c = tt
  are_bodies k polys secret (x ∷ xs) h n c =
      let len = length-body_at polys x ∙ h.count in
      (
        (c.0, body_at-IsBytes k polys x h.polynomial, nonempty_of_length _ secret len n, len),
        are_bodies k polys secret xs h n c.1,
      )

  -- If Split returns shares of a secret of bytes, and the random source fills slices with bytes, then Combine returns the secret from any k or more of
  -- them: for every list of separate positions below n, at least k long and in any order.
  pub combine-split :
      (secret : Bytes) (n k : ℕ) (shares : List Bytes) (picks : List ℕ)
      → Fills rand
      → IsBytes secret
      → split codec rand secret n k ≡ ok shares
      → All (λ i. i < n) picks
      → Separate picks
      → k ≤ length picks
      → combine codec (map (λ i. get_or shares i []) picks) ≡ ok secret
  combine-split secret n k shares picks fills b e below separate enough =
      let s = Splits-split codec rand secret n k e in
      let low = s.low in
      let high = s.high in
      let few = s.few in
      let hides = Hides-polynomials rand k 0 secret s.polys fills (omega arith) b s.drawn in
      let c = picks-IsCoordinate n picks few below in
      let sep = picks-Separate picks separate in
      ap (combine codec) (picked secret n k shares s picks below)
      ∙ combine-encode_share codec k (length secret) (body_at s.polys) (map suc picks) low
          (omega arith) (omega (arith, length-map suc picks))
          (are_bodies k s.polys secret (map suc picks) hides s.some_secret c) sep
      ∙ ap ok (
          combine_raw-points k secret s.polys (map suc picks) hides (omega arith)
            (omega (arith, length-map suc picks)) c sep)
