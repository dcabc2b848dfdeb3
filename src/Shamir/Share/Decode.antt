-- ===== src/Shamir/Share/Decode.antt =====
-- decodeShare reads what encodeShare writes.
use secretstash.Base.{
  ℕ, zero, suc, ◌≤◌, ◌≡◌, ◌≢◌, refl, [], ◌∷◌, ◌++◌, some, false, Bytes, length, take, bytes_dec,
  if_pos, arith, ◌==◌,
}
use secretstash.Base.Int.{pos}
use secretstash.Shamir.Codec.{Codec, dot, NoDot, IsBytes}
use secretstash.Base.Result.{ok}
use secretstash.Shamir.Share.{
  split_dots, in_range, share_checksum, encode_share, decode_fields, decode_share,
}

split_dots-append : (p s : Bytes) → NoDot p → split_dots (p ++ dot ∷ s) ≡ p ∷ split_dots s
unfolding split_dots
split_dots-append [] s h = refl
split_dots-append (c ∷ p) s h = ground (arith, split_dots-append p s h.1)

split_dots_last : (p : Bytes) → NoDot p → split_dots p ≡ p ∷ []
unfolding split_dots
split_dots_last [] h = refl
split_dots_last (c ∷ p) h = ground (arith, split_dots_last p h.1)

in_range_lem : (lo hi n : ℕ) → lo ≤ n → n ≤ hi → in_range lo hi (some (pos n)) ≡ some n
unfolding in_range
in_range_lem lo hi n h h' = ground arith

pub length-take-four : (b : Bytes) → length b ≡ 32 → length (take 4 b) ≡ 4
length-take-four (_ ∷ _ ∷ _ ∷ _ ∷ b) h = refl
length-take-four b h = absurd (omega arith)

pub take-IsBytes : (n : ℕ) (b : Bytes) → IsBytes b → IsBytes (take n b)
take-IsBytes zero b h = tt
take-IsBytes (suc n) [] h = tt
take-IsBytes (suc n) (x ∷ b) h = (h.0, take-IsBytes n b h.1)

module _ (codec : Codec) where
  open codec use {
    encode, decode, print, atoi, sha256, decode-encode, encode-NoDot, atoi-print, print-NoDot,
    length-sha256, sha256-IsBytes,
  }

  length-share_checksum : (k x : ℕ) (body : Bytes) → length (share_checksum codec k x body) ≡ 4
  unfolding share_checksum
  length-share_checksum k x body = length-take-four _ (length-sha256 _)

  share_checksum-IsBytes : (k x : ℕ) (body : Bytes) → IsBytes (share_checksum codec k x body)
  unfolding share_checksum
  share_checksum-IsBytes k x body = take-IsBytes 4 _ (sha256-IsBytes _)

  decode_fields-encode :
      (k x : ℕ) (body : Bytes)
      → 2 ≤ k
      → k ≤ 255
      → 1 ≤ x
      → x ≤ 255
      → IsBytes body
      → body ≢ []
      → decode_fields codec
          (print k)
          (print x)
          (encode (share_checksum codec k x body))
          (encode body)
        ≡ ok (k, x, body)
  unfolding decode_fields
  decode_fields-encode k x [] hk hk' hx hx' b n = absurd (n refl)
  decode_fields-encode k x (c ∷ body) hk hk' hx hx' b n =
      rw
        (
          atoi-print,
          atoi-print,
          in_range_lem 2 255 k hk hk',
          in_range_lem 1 255 x hx hx',
          decode-encode (share_checksum codec k x (c ∷ body))
              (share_checksum-IsBytes k x (c ∷ body)),
          length-share_checksum k x (c ∷ body),
          decode-encode (c ∷ body) b,
          (let e : (suc (length body) == 0) ≡ false = ground arith in e),
        )
        (if_pos (bytes_dec (share_checksum codec k x (c ∷ body)) _) refl _ _)

  -- A share that encodeShare writes, with a threshold and a coordinate that a byte holds and a body
  -- that is not empty, is read back by decodeShare as it was.
  pub decode_share-encode_share :
      (k x : ℕ) (body : Bytes)
      → 2 ≤ k
      → k ≤ 255
      → 1 ≤ x
      → x ≤ 255
      → IsBytes body
      → body ≢ []
      → decode_share codec (encode_share codec k x body) ≡ ok (k, x, body)
  unfolding decode_share encode_share
  decode_share-encode_share k x body hk hk' hx hx' b n =
      rw
        (
          split_dots-append (print k)
              (print x ++ dot ∷ (encode (share_checksum codec k x body) ++ dot ∷ encode body))
              (print-NoDot k),
          split_dots-append (print x) (encode (share_checksum codec k x body) ++ dot ∷ encode body)
              (print-NoDot x),
          split_dots-append (encode (share_checksum codec k x body)) (encode body) (encode-NoDot _),
          split_dots_last (encode body) (encode-NoDot body),
        )
        (decode_fields-encode k x body hk hk' hx hx' b n)
