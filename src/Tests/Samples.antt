-- ===== src/Tests/Samples.antt =====
-- Concrete libraries and inputs: an encoding, ciphers and random bytes that meet the documented laws.
use secretstash.Base.{
  ℕ, zero, suc, ◌+◌, ◌-◌, ◌%◌, ◌<◌, ◌≡◌, refl, ap, ap₂, subst, [], ◌∷◌, map, Option, none, some,
  Bytes, length, replicate, length-replicate, arith,
}
use secretstash.Base.Int.{pos}
use secretstash.Shamir.Codec.{Codec, NoDot, IsBytes}
use secretstash.Shamir.Raw.{Rand}
use secretstash.Shamir.Share.Splits.{Fills}
use secretstash.Shamir.Share.Total.{Draws}
use secretstash.Crypto.{Ciphers}

abbrev pub shift : ℕ → ℕ
shift x = x + 1000

abbrev pub unshift : ℕ → ℕ
unshift x = x - 1000

pub unshift_all : (b : Bytes) → map unshift (map shift b) ≡ b
unshift_all [] = refl
unshift_all (x ∷ b) = ap₂ ◌∷◌ (omega arith) (unshift_all b)

pub shift-NoDot : (b : Bytes) → NoDot (map shift b)
shift-NoDot [] = tt
shift-NoDot (x ∷ b) = ((λ p. absurd (omega arith)), shift-NoDot b)

pub ones-NoDot : (n : ℕ) → NoDot (replicate n 1)
ones-NoDot zero = tt
ones-NoDot (suc n) = ((λ p. absurd (omega arith)), ones-NoDot n)

pub replicate-IsBytes : (n c : ℕ) → c < 256 → IsBytes (replicate n c)
replicate-IsBytes zero c h = tt
replicate-IsBytes (suc n) c h = (h, replicate-IsBytes n c h)

abbrev pub total : Bytes → ℕ
total [] = 0
total (x ∷ b) = x + total b

-- Base64 by a shift out of the range of bytes, numbers in unary, and a sum for SHA-256.
abbrev pub codec : Codec
codec = record {
  encode = map shift;
  decode = λ b. some (map unshift b);
  print = λ n. replicate n 1;
  atoi = λ b. some (pos (length b));
  sha256 = λ b. replicate 32 (total b % 256);
  decode-encode = λ b h. ap some (unshift_all b);
  encode-NoDot = shift-NoDot;
  atoi-print = λ n. ap (λ m. some (pos m)) (length-replicate n 1);
  print-NoDot = ones-NoDot;
  length-sha256 = λ b. refl;
  sha256-IsBytes = λ b. replicate-IsBytes 32 (total b % 256) (omega arith);
}

abbrev pub strip_tag : Bytes → Option Bytes
strip_tag [] = none
strip_tag (c ∷ b) = some b

-- A cipher that puts a tag in front.
abbrev pub ciphers : Ciphers
ciphers = record {
  Block = Bytes;
  Aead = Bytes;
  hkdf = λ secret salt info n. some secret;
  new_cipher = some;
  new_gcm = some;
  gcm_seal = λ a nonce plaintext aad. length a ∷ plaintext;
  gcm_open = λ a nonce ciphertext aad. strip_tag ciphertext;
  hex = λ b. b;
  gcm_open-gcm_seal = λ a nonce plaintext aad h. refl;
}

abbrev pub rand : Rand
rand i n = some (replicate n ((i + 7) % 256))

pub rand-Fills : Fills rand
rand-Fills i n r h =
    let e : replicate n ((i + 7) % 256) ≡ r = cc in
    subst (λ r. IsBytes r × (length r ≡ n)) e
      (replicate-IsBytes n ((i + 7) % 256) (omega arith), length-replicate n ((i + 7) % 256))

pub rand-Draws : Draws rand
rand-Draws i n = (replicate n ((i + 7) % 256), refl)
