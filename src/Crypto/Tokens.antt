-- ===== src/Crypto/Tokens.antt =====
-- Tokens as text: ParseToken undoes EncodeToken and NewToken.
use secretstash.Base.{
  ℕ, ◌≡◌, refl, sym, ap, subst, ◌∙◌, ◌++◌, true, false, not, Bytes, length, take, bytes_dec, if_pos,
  ◌==◌, arith, ltb,
}
use secretstash.Base.Result.{ok, or_fail, refuse-eq_ok, bind-eq_ok, or_fail-eq_ok, ok_inj}
use secretstash.Shamir.Codec.{Codec, IsBytes}
use secretstash.Shamir.Raw.{Rand}
use secretstash.Shamir.Share.Splits.{Fills}
use secretstash.Crypto.{
  token_prefix, token_bytes, randomness, bad_token, new_token, parse_token, encode_token,
}

module _ (codec : Codec) where
  open codec use {encode, decode, decode-encode}

  parse_token-encode :
      (raw : Bytes)
      → IsBytes raw
      → length raw ≡ token_bytes
      → parse_token codec (token_prefix ++ encode raw) ≡ ok raw
  unfolding parse_token bytes_dec
  parse_token-encode raw b n =
      rw
        (
          (let e : ltb (length (token_prefix ++ encode raw)) (length token_prefix) ≡ false =
                ground arith in
              e),
          if_pos (bytes_dec (take (length token_prefix) (token_prefix ++ encode raw)) token_prefix)
              refl false true,
          decode-encode raw b,
          (let e : (length raw == 32) ≡ true = ground arith in e),
        )
        refl

  -- ParseToken reads back every token that EncodeToken writes for bytes.
  pub parse_token-encode_token :
      (raw token : Bytes)
      → IsBytes raw
      → encode_token codec raw ≡ ok token
      → parse_token codec token ≡ ok raw
  unfolding encode_token
  parse_token-encode_token raw token b e =
      let g =
        refuse-eq_ok (not (length raw == token_bytes)) bad_token (ok (token_prefix ++ encode raw))
          e in
      ap (parse_token codec) (sym (ok_inj g.1)) ∙ parse_token-encode raw b (ground (arith, g.0))

  -- The parts of what NewToken returns.
  pub new_token-NewToken :
      (rand : Rand) (call : ℕ) (token raw : Bytes)
      → Fills rand
      → new_token codec rand call ≡ ok (token, raw)
      → (length raw ≡ token_bytes) × IsBytes raw × (token ≡ token_prefix ++ encode raw)
  unfolding new_token
  new_token-NewToken rand call token raw fills e =
      let (drawn, d, r) = bind-eq_ok (or_fail (rand call token_bytes) randomness) _ e in
      let f = fills call token_bytes drawn (or_fail-eq_ok _ _ d) in
      let same = ap (λ p. p.1) (ok_inj r) in
      (
        ap length (sym same) ∙ f.1,
        subst IsBytes same f.0,
        sym (ap (λ p. p.0) (ok_inj r)) ∙ ap (λ b. token_prefix ++ encode b) same,
      )

  -- If NewToken succeeds, with a random source that fills slices with bytes, it returns 32 bytes and
  -- a token that ParseToken reads back to them.
  pub parse_token-new_token :
      (rand : Rand) (call : ℕ) (token raw : Bytes)
      → Fills rand
      → new_token codec rand call ≡ ok (token, raw)
      → (length raw ≡ token_bytes) × (parse_token codec token ≡ ok raw)
  unfolding new_token
  parse_token-new_token rand call token raw fills e =
      let (drawn, d, r) = bind-eq_ok (or_fail (rand call token_bytes) randomness) _ e in
      let f = fills call token_bytes drawn (or_fail-eq_ok _ _ d) in
      let same = ok_inj r in
      (
        ap length (sym (ap (λ p. p.1) same)) ∙ f.1,
        ap (parse_token codec) (sym (ap (λ p. p.0) same))
            ∙ parse_token-encode drawn f.0 f.1
            ∙ ap ok (ap (λ p. p.1) same),
      )
