-- ===== src/Shamir/Share.antt =====
-- The text form of shares in internal/shamir/shamir.go: encodeShare, decodeShare, shareChecksum, and
-- Split and Combine, which use it. Go's `int` is ℕ where the code has checked that it is in range.
pub mod Decode
pub mod Combine
pub mod Splits
pub mod RoundTrip
pub mod Total
pub mod Masks
pub mod Hiding
pub mod Sound
use secretstash.Base.{
  ◌≡◌, refl, ℕ, zero, suc, ◌+◌, ◌-◌, List, [], ◌∷◌, ◌++◌, map, Option, none, some, Bool, true,
  false, ◌||◌, Bytes, length, take, get_or, bytes_dec, ite, ◌==◌, ltb, if◌then◌else◌,
}
use secretstash.Base.Int.{ℤ, pos, negsuc}
use secretstash.Base.Result.{Result, ok, err, ◌>>=◌, ◌>>◌, refuse, or_fail}
use secretstash.Shamir.Codec.{Codec, dot}
use secretstash.Shamir.Gf.{u8}
use secretstash.Shamir.Raw.{Rand, split_raw, combine_raw}

-- The package's error values, and the error of crypto/rand.
pub data Error : Type 0 where
  empty_secret invalid_threshold too_many_shares bad_share bad_checksum : Error
  threshold_mismatch share_length duplicate_x too_few_shares randomness : Error

-- An error as it is returned: bare, or wrapped as "share %d".
pub data Failure : Type 0 where
  bare : Error → Failure
  in_share : ℕ → Error → Failure

-- fmt.Errorf("share %d: %w", i+1, err)
abbrev pub wrap {ℓ} : {A : Type ℓ} → ℕ → Result Error A → Result Failure A
wrap i (ok a) = ok a
wrap i (err e) = err (in_share (i + 1) e)

-- strings.Split(s, ".")
abbrev pub push : ℕ → List Bytes → List Bytes
push c [] = (c ∷ []) ∷ []
push c (p ∷ ps) = (c ∷ p) ∷ ps

unfoldable pub split_dots : Bytes → List Bytes
split_dots [] = [] ∷ []
split_dots (c ∷ s) = let rest = split_dots s in if c == dot then [] ∷ rest else push c rest

-- strings.CutPrefix(s, prefix)
unfoldable pub cut_prefix : Bytes → Bytes → Option Bytes
cut_prefix [] s = some s
cut_prefix (p ∷ prefix) [] = none
cut_prefix (p ∷ prefix) (c ∷ s) = let rest = cut_prefix prefix s in if c == p then rest else none

-- err != nil || n < lo || n > hi
unfoldable pub in_range : ℕ → ℕ → Option ℤ → Option ℕ
in_range lo hi none = none
in_range lo hi (some (negsuc n)) = none
in_range lo hi (some (pos n)) = if ltb n lo || ltb hi n then none else some n

-- "sss1."
abbrev pub share_prefix : Bytes
share_prefix = b's' ∷ b's' ∷ b's' ∷ b'1' ∷ b'.' ∷ []

abbrev pub share_version : ℕ
share_version = 1

abbrev pub checksum_len : ℕ
checksum_len = 4

-- The switch in Combine: the first share sets the threshold and the length, the others must agree.
unfoldable pub agree : ℕ → ℕ → ℕ → ℕ → Bytes → Result Error (ℕ × ℕ)
agree i want_k body_len k body =
    if i == 0
    then ok (k, length body)
    else if k == want_k
    then (if length body == body_len then ok (want_k, body_len) else err share_length)
    else err threshold_mismatch

-- seen[x]
unfoldable pub contains : ℕ → Bytes → Bool
contains x [] = false
contains x (y ∷ seen) = x == y || contains x seen

module _ (codec : Codec) where
  open codec use {encode, decode, print, atoi, sha256}

  unfoldable pub share_checksum : ℕ → ℕ → Bytes → Bytes
  share_checksum k x body = take checksum_len (sha256 (share_version ∷ u8 k ∷ u8 x ∷ body))

  unfoldable pub encode_share : ℕ → ℕ → Bytes → Bytes
  encode_share k x body =
      share_prefix
      ++ (print k
          ++ dot ∷ (print x ++ dot ∷ (encode (share_checksum k x body) ++ dot ∷ encode body)))

  -- decodeShare behind the test of len(parts).
  unfoldable pub decode_fields : Bytes → Bytes → Bytes → Bytes → Result Error (ℕ × ℕ × Bytes)
  unfolding in_range bytes_dec
  decode_fields p0 p1 p2 p3 = do
    k ← or_fail (in_range 2 255 (atoi p0)) bad_share
    x ← or_fail (in_range 1 255 (atoi p1)) bad_share
    chk ← or_fail (decode p2) bad_share
    refuse (if length chk == checksum_len then false else true) bad_share
    body ← or_fail (decode p3) bad_share
    refuse (length body == 0) bad_share
    ite (bytes_dec chk (share_checksum k x body)) (ok (k, x, body)) (err bad_checksum)

  unfoldable pub decode_parts : List Bytes → Result Error (ℕ × ℕ × Bytes)
  unfolding decode_fields
  decode_parts (p0 ∷ p1 ∷ p2 ∷ p3 ∷ []) = decode_fields p0 p1 p2 p3
  decode_parts _ = err bad_share

  unfoldable pub decode_share : Bytes → Result Error (ℕ × ℕ × Bytes)
  unfolding cut_prefix split_dots decode_parts
  decode_share s = do
    rest ← or_fail (cut_prefix share_prefix s) bad_share
    decode_parts (split_dots rest)

  -- The text of one raw share of Split: the body, and the coordinate behind it.
  unfoldable pub render : ℕ → Bytes → Bytes
  unfolding encode_share
  render k s = let body_len = length s - 1 in encode_share k (get_or s body_len 0) (take body_len s)

  unfoldable pub split : Rand → Bytes → ℕ → ℕ → Result Failure (List Bytes)
  split rand secret n k = do
    refuse (length secret == 0) (bare empty_secret)
    refuse (ltb k 2 || ltb n k) (bare invalid_threshold)
    refuse (ltb 255 n) (bare too_many_shares)
    raw ← or_fail (split_raw rand secret n k) (bare randomness)
    ok (map (render k) raw)

  -- The loop of Combine from the index i, with the threshold, the length, the coordinates seen and
  -- the points so far.
  unfoldable pub combine_shares :
      ℕ → ℕ → ℕ → Bytes → List Bytes → List Bytes → Result Failure (ℕ × List Bytes)
  unfolding agree contains
  combine_shares i want_k body_len seen raw [] = ok (want_k, raw)
  combine_shares i want_k body_len seen raw (s ∷ shares) = do
    (k, x, body) ← wrap i (decode_share s)
    (want_k', body_len') ← wrap i (agree i want_k body_len k body)
    refuse (contains x seen) (in_share (i + 1) duplicate_x)
    combine_shares (suc i) want_k' body_len' (x ∷ seen) (raw ++ (body ++ u8 x ∷ []) ∷ []) shares

  unfoldable pub combine : List Bytes → Result Failure Bytes
  combine shares = do
    refuse (ltb (length shares) 2) (bare too_few_shares)
    (want_k, raw) ← combine_shares 0 0 0 [] [] shares
    refuse (ltb (length raw) want_k) (bare too_few_shares)
    ok (combine_raw raw)
