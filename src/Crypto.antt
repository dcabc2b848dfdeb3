-- ===== src/Crypto.antt =====
-- internal/crypto/crypto.go: wrap tokens and the sealing of secrets. The derived key lives only
-- inside Seal and Open, which wipe it; the model keeps no copy of it.
pub mod Tokens
pub mod Sealing
use secretstash.Base.{
  ℕ, ◌+◌, ◌≡◌, List, [], ◌∷◌, ◌++◌, Option, none, some, Bool, true, false, not, ◌||◌, Bytes, length,
  take, drop, bytes_dec, ite, ◌==◌, ltb, if◌then◌else◌,
}
use secretstash.Base.Result.{Result, ok, err, ◌>>=◌, ◌>>◌, refuse, or_fail}
use secretstash.Shamir.Codec.{Codec}
use secretstash.Shamir.Raw.{Rand}

-- What the package takes from crypto/hkdf, crypto/aes, crypto/cipher and encoding/hex.
pub record Ciphers : Type 1 where
  pub Block : Type 0
  pub Aead : Type 0
  -- hkdf.Key(sha256.New, secret, salt, info, length)
  pub hkdf : Bytes → Bytes → Bytes → ℕ → Option Bytes
  -- aes.NewCipher and cipher.NewGCM
  pub new_cipher : Bytes → Option Block
  pub new_gcm : Block → Option Aead
  -- aead.Seal(nil, nonce, plaintext, aad) and aead.Open(nil, nonce, ciphertext, aad)
  pub gcm_seal : Aead → Bytes → Bytes → Bytes → Bytes
  pub gcm_open : Aead → Bytes → Bytes → Bytes → Option Bytes
  -- hex.EncodeToString
  pub hex : Bytes → Bytes
  -- Open undoes Seal for a nonce of the standard length.
  pub gcm_open-gcm_seal :
      (a : Aead) (nonce plaintext aad : Bytes)
      → length nonce ≡ 12
      → gcm_open a nonce (gcm_seal a nonce plaintext aad) aad ≡ some plaintext

-- "ss."
abbrev pub token_prefix : Bytes
token_prefix = b's' ∷ b's' ∷ b'.' ∷ []

abbrev pub token_bytes : ℕ
token_bytes = 32

abbrev pub salt_bytes : ℕ
salt_bytes = 32

abbrev pub nonce_bytes : ℕ
nonce_bytes = 12

-- "secretstash/v1/aead"
abbrev pub hkdf_info : Bytes
hkdf_info =
    b's' ∷ b'e' ∷ b'c' ∷ b'r' ∷ b'e' ∷ b't' ∷ b's' ∷ b't' ∷ b'a' ∷ b's' ∷ b'h' ∷ b'/' ∷ b'v' ∷ b'1'
    ∷ b'/' ∷ b'a' ∷ b'e' ∷ b'a' ∷ b'd' ∷ []

-- The package's error values, and the errors of the libraries.
pub data Error : Type 0 where
  bad_token decrypt_failed randomness derivation cipher : Error

-- Sealed, with its ciphertext as bytes; the store keeps it at an address.
pub record Box : Type 0 where
  pub lookup_id : Bytes
  pub ciphertext : Bytes
  pub salt : Bytes
  pub nonce : Bytes

module _ (codec : Codec) where
  open codec use {encode, decode}

  -- NewToken; `call` is the number of the call of rand.Read.
  unfoldable pub new_token : Rand → ℕ → Result Error (Bytes × Bytes)
  new_token rand call = do
    raw ← or_fail (rand call token_bytes) randomness
    ok (token_prefix ++ encode raw, raw)

  unfoldable pub parse_token : Bytes → Result Error Bytes
  unfolding bytes_dec
  parse_token token = do
    refuse
        (ltb (length token) (length token_prefix)
          || ite (bytes_dec (take (length token_prefix) token) token_prefix) false true)
        bad_token
    raw ← or_fail (decode (drop (length token_prefix) token)) bad_token
    refuse (not (length raw == token_bytes)) bad_token
    ok raw

  unfoldable pub encode_token : Bytes → Result Error Bytes
  encode_token raw = do
    refuse (not (length raw == token_bytes)) bad_token
    ok (token_prefix ++ encode raw)

module _ (codec : Codec) (ciphers : Ciphers) where
  open codec use {sha256}
  open ciphers use {Aead, hkdf, new_cipher, new_gcm, gcm_seal, gcm_open, hex}

  unfoldable pub lookup_id : Bytes → Bytes
  lookup_id raw_token = hex (sha256 raw_token)

  unfoldable pub derive_key : Bytes → Bytes → Result Error Bytes
  derive_key raw_token salt = or_fail (hkdf raw_token salt hkdf_info 32) derivation

  unfoldable pub new_aead : Bytes → Result Error Aead
  new_aead key = do block ← or_fail (new_cipher key) cipher; or_fail (new_gcm block) cipher

  -- Seal; `call` and `call + 1` are the numbers of its calls of rand.Read.
  unfoldable pub seal : Rand → ℕ → Bytes → Bytes → Result Error Box
  unfolding lookup_id derive_key new_aead
  seal rand call raw_token plaintext = do
    salt ← or_fail (rand call salt_bytes) randomness
    nonce ← or_fail (rand (call + 1) nonce_bytes) randomness
    key ← derive_key raw_token salt
    aead ← new_aead key
    ok (record {
      lookup_id = lookup_id raw_token;
      ciphertext = gcm_seal aead nonce plaintext (lookup_id raw_token);
      salt = salt;
      nonce = nonce;
    })

  unfoldable pub open_box : Bytes → Box → Result Error Bytes
  unfolding derive_key new_aead
  open_box raw_token s = do
    key ← derive_key raw_token s.salt
    aead ← new_aead key
    or_fail (gcm_open aead s.nonce s.ciphertext s.lookup_id) decrypt_failed
