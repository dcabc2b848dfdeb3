-- ===== src/Api/Json.antt =====
-- What the server and its client take from encoding/json. A string that is not UTF-8 does not survive
-- the encoding, so the laws ask for UTF-8.
use secretstash.Base.{List, ◌<◌, ◌≡◌, Option, some, Bool, true, Bytes, All}
use secretstash.Base.Int.{ℤ}
use secretstash.Base.Result.{Result, ok}
use secretstash.Store.{Time}
use secretstash.Api.{WrapRequest, Response, wrapped, unwrapped}

-- wrapResponse as a client decodes it; the share URL is empty where the server left it out.
pub record Wrapped : Type 0 where
  pub token : Bytes
  pub expires_at : Time
  pub reads : ℤ
  pub share_url : Bytes

-- The error of a decoder is its text.
pub record Json : Type 0 where
  -- utf8.Valid
  pub utf8 : Bytes → Bool
  -- json.NewEncoder(w).Encode of a response
  pub write_response : Response → Bytes
  -- json.NewDecoder(r.Body).Decode(&req), on the bytes that the body yields
  pub read_request : Bytes → Option WrapRequest
  -- json.Marshal of the client's request: the secret, the reads, and the TTL if it is not empty
  pub write_request : Bytes → ℤ → Bytes → Result Bytes Bytes
  pub read_wrapped : Bytes → Result Bytes Wrapped
  pub read_unwrapped : Bytes → Result Bytes (Bytes × ℤ)
  pub read_peeked : Bytes → Result Bytes (Time × ℤ)
  -- The status, the version and the uptime.
  pub read_health : Bytes → Result Bytes (Bytes × Bytes × ℤ)
  -- The message of an error body; empty if there is none.
  pub read_message : Bytes → Bytes
  -- json.Marshal of the shares, the threshold, the reads and the expiry
  pub write_shares : List Bytes → ℤ → ℤ → Time → Result Bytes Bytes
  pub utf8-ascii : (b : Bytes) → All (λ c. c < 128) b → utf8 b ≡ true
  pub read_request-write_request :
      (secret ttl : Bytes) (reads : ℤ)
      → utf8 secret ≡ true
      → utf8 ttl ≡ true
      → (body : Bytes) × (write_request secret reads ttl ≡ ok body)
        × (read_request body ≡ some (record { secret = secret; ttl = ttl; reads = reads }))
  pub read_wrapped-write_response :
      (token : Bytes) (expiry : Time) (reads : ℤ) (url : Option Bytes)
      → utf8 token ≡ true
      → (w : Wrapped) × (read_wrapped (write_response (wrapped token expiry reads url)) ≡ ok w)
        × (w.token ≡ token)
        × (w.reads ≡ reads)
  pub read_unwrapped-write_response :
      (secret : Bytes) (reads : ℤ) (created : Time)
      → utf8 secret ≡ true
      → read_unwrapped (write_response (unwrapped secret reads created)) ≡ ok (secret, reads)
