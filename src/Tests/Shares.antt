-- ===== src/Tests/Shares.antt =====
-- Runs of the sharing of tokens.
use mathlib.Core.Option
use secretstash.Base.{
  ℕ, ◌≡◌, ◌≢◌, refl, List, [], ◌∷◌, map, Bytes, length, get_or, bit_xor, All, arith,
}
use secretstash.Base.Result.{Result, ok, err}
use secretstash.Shamir.Codec.{IsBytes}
use secretstash.Shamir.Gf.{u8, gf_shift, gf_mul_loop, gf_mul, gf_inv_loop, gf_inv}
use secretstash.Shamir.Gf.Power.{gf_mul_times, gf_inv_loop-gf_mul_times}
use secretstash.Shamir.Gf.Instance.{gf, gf_mul_field}
use secretstash.Shamir.Lagrange.{Distinct}
use secretstash.Shamir.Raw.{split_raw, combine_raw}
use secretstash.Shamir.Raw.Split.{coordinates, polynomials, share_at, split_raw-share_at}
use secretstash.Shamir.Raw.Combine.{IsPolynomial, combine_raw-share_at}
use secretstash.Shamir.Share.{Failure, split, combine, encode_share, decode_share}
use secretstash.Shamir.Share.Decode.{decode_share-encode_share}
use secretstash.Shamir.Share.Combine.{Separate, text, point, IsBody, combine-encode_share}
use secretstash.Shamir.Share.RoundTrip.{combine-split}
use secretstash.Shamir.Share.Splits.{Fills}
use secretstash.Shamir.Share.Hiding.{mask_for, split-mask_for}
use secretstash.Shamir.Share.Sound.{Sound, combine-Sound}
use secretstash.Shamir.Share.Total.{split_total}
use secretstash.Tests.Samples.{codec, rand, rand-Fills, rand-Draws}

nonzero : u8 83 ≢ 0
nonzero = omega arith

gf_mul_field_example :
    (gf_mul (gf_mul 83 131) 19 ≡ gf_mul 83 (gf_mul 131 19))
    × (gf_mul 83 131 ≡ gf_mul 131 83)
    × (gf_mul 83 (bit_xor 131 19) ≡ bit_xor (gf_mul 83 131) (gf_mul 83 19))
    × (gf_mul 83 (gf_inv 83) ≡ 1)
gf_mul_field_example = gf_mul_field 83 131 19 nonzero

gf_inv_loop-gf_mul_times_example : gf_inv_loop 9 254 1 83 ≡ gf_mul_times 254 1 83
gf_inv_loop-gf_mul_times_example = gf_inv_loop-gf_mul_times 9 254 1 83 (omega arith)

-- The product of the AES standard's example.
gf_mul_aes : gf_mul 87 131 ≡ 193
unfolding gf_mul gf_mul_loop gf_shift
gf_mul_aes = refl

abbrev secret : Bytes
secret = 42 ∷ 200 ∷ []

abbrev polys : List Bytes
polys = (42 ∷ 7 ∷ []) ∷ (200 ∷ 8 ∷ []) ∷ []

polys-IsPolynomial : All (IsPolynomial 2) polys
polys-IsPolynomial = (
  (omega arith, (omega arith, tt), omega arith),
  ((omega arith, (omega arith, tt), omega arith), tt),
)

points-Distinct : Distinct gf (3 ∷ 1 ∷ [])
points-Distinct = (((λ p. absurd (omega arith)), tt), (tt, tt))

combine_raw-share_at_example : combine_raw (map (share_at polys) (3 ∷ 1 ∷ [])) ≡ secret
combine_raw-share_at_example =
    combine_raw-share_at polys 3 (1 ∷ []) polys-IsPolynomial points-Distinct

split_raw-share_at_example :
    split_raw rand secret 3 2
    ≡ Option.map (λ ps. map (share_at ps) (coordinates 0 3)) (polynomials rand 2 0 secret)
split_raw-share_at_example = split_raw-share_at rand secret 3 2

secret-IsBytes : IsBytes secret
secret-IsBytes = (omega arith, (omega arith, tt))

secret_ne : secret ≢ []
secret_ne p = cc

decode_share-encode_share_example :
    decode_share codec (encode_share codec 2 3 secret) ≡ ok (2, 3, secret)
decode_share-encode_share_example =
    decode_share-encode_share codec 2 3 secret (omega arith) (omega arith) (omega arith)
      (omega arith) secret-IsBytes secret_ne

split_total_example :
    (shares : List Bytes) × (split codec rand secret 3 2 ≡ ok shares) × (length shares ≡ 3)
split_total_example =
    split_total codec rand secret 3 2 rand-Draws secret_ne (omega arith) (omega arith) (omega arith)

-- The shares of the secret, as text.
abbrev shares_of : Result Failure (List Bytes) → List Bytes
shares_of (ok shares) = shares
shares_of (err e) = []

abbrev shares : List Bytes
shares = shares_of (split codec rand secret 3 2)

split_run : split codec rand secret 3 2 ≡ ok shares
unfolding split split_raw
split_run = refl

picks-Separate : Separate (2 ∷ 0 ∷ [])
picks-Separate = (((λ p. absurd (omega arith)), tt), (tt, tt))

-- The third and the first of three shares, in this order.
combine-split_example : combine codec (map (λ i. get_or shares i []) (2 ∷ 0 ∷ [])) ≡ ok secret
combine-split_example =
    combine-split codec rand secret 3 2 shares (2 ∷ 0 ∷ []) rand-Fills secret-IsBytes split_run
      (omega arith, (omega arith, tt)) picks-Separate (omega arith)

combine_run : combine codec (map (λ i. get_or shares i []) (2 ∷ 0 ∷ [])) ≡ ok secret
combine_run =
    combine-split codec rand secret 3 2 shares (2 ∷ 0 ∷ []) rand-Fills secret-IsBytes split_run
      (omega arith, (omega arith, tt)) picks-Separate (omega arith)

abbrev body : ℕ → Bytes
body x = x ∷ 9 ∷ []

bodies : All (IsBody codec 2 2 body) (5 ∷ 4 ∷ [])
bodies = (
  ((omega arith, omega arith), (omega arith, (omega arith, tt)), (λ p. cc), refl),
  (((omega arith, omega arith), (omega arith, (omega arith, tt)), (λ p. cc), refl), tt),
)

coordinates-Separate : Separate (5 ∷ 4 ∷ [])
coordinates-Separate = (((λ p. absurd (omega arith)), tt), (tt, tt))

combine-encode_share_example :
    combine codec (map (text codec 2 2 body) (5 ∷ 4 ∷ []))
    ≡ ok (combine_raw (map (point codec 2 2 body) (5 ∷ 4 ∷ [])))
combine-encode_share_example =
    combine-encode_share codec 2 2 body (5 ∷ 4 ∷ []) (omega arith) (omega arith) (omega arith)
      bodies coordinates-Separate

-- Two of three shares are needed: one of them is the same for another secret.
split-mask_for_example :
    Fills (mask_for codec 2 (1 ∷ []) secret (1 ∷ 2 ∷ []) rand)
    × ((i m : ℕ)
        → mask_for codec 2
            (1 ∷ [])
            secret
            (1 ∷ 2 ∷ [])
            (mask_for codec 2 (1 ∷ []) secret (1 ∷ 2 ∷ []) rand)
            i
            m
          ≡ rand i m)
    × ((shares' : List Bytes) × (split codec
            (mask_for codec 2 (1 ∷ []) secret (1 ∷ 2 ∷ []) rand)
            (1 ∷ 2 ∷ [])
            3
            2
          ≡ ok shares')
        × All (λ i. get_or shares' i [] ≡ get_or shares i []) (1 ∷ []))
split-mask_for_example =
    split-mask_for codec secret (1 ∷ 2 ∷ []) 3 2 (1 ∷ []) rand shares secret-IsBytes
      (omega arith, (omega arith, tt)) refl (omega arith, tt) (omega arith) rand-Fills split_run

combine-Sound_example : Sound codec (map (λ i. get_or shares i []) (2 ∷ 0 ∷ [])) secret
combine-Sound_example =
    combine-Sound codec (map (λ i. get_or shares i []) (2 ∷ 0 ∷ [])) secret combine_run
