-- ===== src/Shamir/Codec.antt =====
-- What internal/shamir/shamir.go takes from the standard library to write a share as text: base64
-- (raw, URL alphabet), decimal numbers, and SHA-256. The laws are the documented ones.
use secretstash.Base.{ℕ, ◌<◌, ◌≡◌, ◌≢◌, Option, some, Bytes, length, All}
use secretstash.Base.Int.{ℤ, pos}

-- The byte that separates the fields of a share.
abbrev pub dot : ℕ
dot = b'.'

abbrev pub NoDot : Bytes → Type 0
NoDot = All (λ c. c ≢ dot)

abbrev pub IsBytes : Bytes → Type 0
IsBytes = All (λ c. c < 256)

pub record Codec : Type 0 where
  -- base64.RawURLEncoding.EncodeToString and DecodeString
  pub encode : Bytes → Bytes
  pub decode : Bytes → Option Bytes
  -- fmt's %d of a number that is not negative, and strconv.Atoi
  pub print : ℕ → Bytes
  pub atoi : Bytes → Option ℤ
  -- sha256.Sum256
  pub sha256 : Bytes → Bytes
  pub decode-encode : (b : Bytes) → IsBytes b → decode (encode b) ≡ some b
  pub encode-NoDot : (b : Bytes) → NoDot (encode b)
  pub atoi-print : (n : ℕ) → atoi (print n) ≡ some (pos n)
  pub print-NoDot : (n : ℕ) → NoDot (print n)
  pub length-sha256 : (b : Bytes) → length (sha256 b) ≡ 32
  pub sha256-IsBytes : (b : Bytes) → IsBytes (sha256 b)
