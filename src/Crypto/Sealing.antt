-- ===== src/Crypto/Sealing.antt =====
-- Open undoes Seal.
use secretstash.Base.{ℕ, ◌+◌, ◌≡◌, refl, sym, ap, ◌∙◌, Bytes}
use secretstash.Base.Result.{ok, or_fail, bind-eq_ok, or_fail-eq_ok, ok_inj}
use secretstash.Shamir.Codec.{Codec}
use secretstash.Shamir.Raw.{Rand}
use secretstash.Shamir.Share.Splits.{Fills}
use secretstash.Crypto.{
  Ciphers, nonce_bytes, salt_bytes, randomness, Box, lookup_id, derive_key, new_aead, seal,
  open_box,
}

module _ (codec : Codec) (ciphers : Ciphers) where
  open ciphers use {Aead, gcm_seal, gcm_open, gcm_open-gcm_seal}

  -- A box that Seal returns, with a random source that fills slices with bytes, lies under the lookup
  -- ID of the token, and Open with the same token returns the plaintext.
  pub open_box-seal :
      (rand : Rand) (call : ℕ) (raw plaintext : Bytes) (s : Box)
      → Fills rand
      → seal codec ciphers rand call raw plaintext ≡ ok s
      → (s.lookup_id ≡ lookup_id codec ciphers raw) × (open_box codec ciphers raw s ≡ ok plaintext)
  unfolding seal open_box
  open_box-seal rand call raw plaintext s fills e =
      let (salt, d1, e1) = bind-eq_ok (or_fail (rand call salt_bytes) randomness) _ e in
      let (nonce, d2, e2) = bind-eq_ok (or_fail (rand (call + 1) nonce_bytes) randomness) _ e1 in
      let (key, d3, e3) = bind-eq_ok (derive_key codec ciphers raw salt) _ e2 in
      let (aead, d4, e4) = bind-eq_ok (new_aead codec ciphers key) _ e3 in
      let f = fills (call + 1) nonce_bytes nonce (or_fail-eq_ok _ _ d2) in
      let same = ok_inj e4 in
      (
        sym (ap (λ b. b.lookup_id) same),
        ap (open_box codec ciphers raw) (sym same)
            ∙ rw (d3, d4, gcm_open-gcm_seal aead nonce plaintext (lookup_id codec ciphers raw) f.1)
                refl,
      )
