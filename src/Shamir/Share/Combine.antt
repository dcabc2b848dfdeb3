-- ===== src/Shamir/Share/Combine.antt =====
-- Combine on shares that encodeShare wrote: every check passes, and the raw points reach combineRaw.
use mathlib.Core.List.{append-nil, append_assoc}
use secretstash.Base.{
  ℕ, suc, ◌≤◌, ◌≡◌, ◌≢◌, refl, sym, ap, ◌∙◌, List, [], ◌∷◌, ◌++◌, map, false, Bytes, length, All,
  arith, ltb, length-map,
}
use secretstash.Shamir.Codec.{Codec, IsBytes}
use secretstash.Shamir.Gf.{u8}
use secretstash.Shamir.Raw.{combine_raw}
use secretstash.Base.Result.{ok}
use secretstash.Shamir.Share.{encode_share, agree, contains, combine_shares, combine}
use secretstash.Shamir.Share.Decode.{decode_share-encode_share}

-- No number stands twice.
abbrev pub Separate : List ℕ → Type 0
Separate [] = Unit
Separate (x ∷ xs) = All (λ y. y ≢ x) xs × Separate xs

abbrev pub IsCoordinate : ℕ → Type 0
IsCoordinate x = (1 ≤ x) × (x ≤ 255)

unseen_more :
    (x : ℕ) (seen xs : Bytes)
    → All (λ y. y ≢ x) xs
    → All (λ y. contains y seen ≡ false) xs
    → All (λ y. contains y (x ∷ seen) ≡ false) xs
unfolding contains
unseen_more x seen [] a b = tt
unseen_more x seen (y ∷ xs) a b = (ground arith, unseen_more x seen xs a.1 b.1)

module _ (codec : Codec) (k body_len : ℕ) (body : ℕ → Bytes) where
  -- The body of each share, with the coordinate behind it.
  abbrev pub point : ℕ → Bytes
  point x = body x ++ u8 x ∷ []

  abbrev pub text : ℕ → Bytes
  text x = encode_share codec k x (body x)

  abbrev pub IsBody : ℕ → Type 0
  IsBody x = IsCoordinate x × IsBytes (body x) × (body x ≢ []) × (length (body x) ≡ body_len)

  -- One round: a share with a fresh coordinate that agrees with the first.
  combine_shares_round :
      (i want_k want_len x : ℕ) (seen : Bytes) (raw shares : List Bytes)
      → 2 ≤ k
      → k ≤ 255
      → IsBody x
      → agree i want_k want_len k (body x) ≡ ok (k, body_len)
      → contains x seen ≡ false
      → combine_shares codec i want_k want_len seen raw (text x ∷ shares)
        ≡ combine_shares codec (suc i) k body_len (x ∷ seen) (raw ++ point x ∷ []) shares
  unfolding combine_shares
  combine_shares_round i want_k want_len x seen raw shares hk hk' b a f =
      rw (decode_share-encode_share codec k x (body x) hk hk' b.0.0 b.0.1 b.1 b.2, a, f) refl

  agree_later : (i x : ℕ) → IsBody x → agree (suc i) k body_len k (body x) ≡ ok (k, body_len)
  unfolding agree
  agree_later i x b = ground arith

  combine_shares_later :
      (i : ℕ) (seen : Bytes) (raw : List Bytes) (xs : List ℕ)
      → 2 ≤ k
      → k ≤ 255
      → All IsBody xs
      → Separate xs
      → All (λ x. contains x seen ≡ false) xs
      → combine_shares codec (suc i) k body_len seen raw (map text xs) ≡ ok (k, raw ++ map point xs)
  combine_shares_later i seen raw [] hk hk' b s f =
      unfold combine_shares in ap (λ r. ok (k, r)) (sym (append-nil raw))
  combine_shares_later i seen raw (x ∷ xs) hk hk' b s f =
      combine_shares_round (suc i) k body_len x seen raw (map text xs) hk hk' b.0
        (agree_later i x b.0) f.0
      ∙ combine_shares_later (suc i) (x ∷ seen) (raw ++ point x ∷ []) xs hk hk' b.1 s.1
          (unseen_more x seen xs s.0 f.1)
      ∙ ap (λ r. ok (k, r)) (append_assoc raw (point x ∷ []) (map point xs))

  agree_first : (x : ℕ) → IsBody x → agree 0 0 0 k (body x) ≡ ok (k, body_len)
  unfolding agree
  agree_first x b = ap (λ n. ok (k, n)) b.3

  none_seen : (xs : List ℕ) → All (λ x. contains x [] ≡ false) xs
  unfolding contains
  none_seen [] = tt
  none_seen (x ∷ xs) = (refl, none_seen xs)

  combine_shares_texts :
      (x : ℕ) (xs : List ℕ)
      → 2 ≤ k
      → k ≤ 255
      → All IsBody (x ∷ xs)
      → Separate (x ∷ xs)
      → combine_shares codec 0 0 0 [] [] (map text (x ∷ xs)) ≡ ok (k, map point (x ∷ xs))
  combine_shares_texts x xs hk hk' b s =
      combine_shares_round 0 0 0 x [] [] (map text xs) hk hk' b.0 (agree_first x b.0)
        (none_seen (x ∷ [])).0
      ∙ combine_shares_later 0 (x ∷ []) (point x ∷ []) xs hk hk' b.1 s.1
          (unseen_more x [] xs s.0 (none_seen xs))

  -- On k or more shares that encodeShare writes, with one threshold k from 2 to 255, bodies of one
  -- length that are not empty, and separate coordinates in range, Combine returns what combineRaw
  -- returns for their points.
  pub combine-encode_share :
      (xs : List ℕ)
      → 2 ≤ k
      → k ≤ 255
      → k ≤ length xs
      → All IsBody xs
      → Separate xs
      → combine codec (map text xs) ≡ ok (combine_raw (map point xs))
  unfolding combine
  combine-encode_share [] hk hk' n b s = absurd (omega arith)
  combine-encode_share (x ∷ xs) hk hk' n b s =
      rw
        (
          (let e : ltb (length (map text (x ∷ xs))) 2 ≡ false =
                ground (arith, length-map text xs) in
              e),
          combine_shares_texts x xs hk hk' b s,
          (let e : ltb (length (map point (x ∷ xs))) k ≡ false =
                ground (arith, length-map point xs) in
              e),
        )
        refl
