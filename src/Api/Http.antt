-- ===== src/Api/Http.antt =====
-- Routes of internal/api/api.go and the middleware around it: a request goes through noStore, maxBytes
-- and rateLimit to the handler of its route.
pub mod Admit
pub mod Calls
pub mod Traffic
pub mod Delivered
pub mod Allowance
pub mod Between
use secretstash.Base.{
  ℕ, ◌+◌, ◌-◌, ◌≡◌, List, [], ◌∷◌, ◌++◌, Option, none, some, Bytes, take, Bool, true, false,
  if◌then◌else◌,
}
use secretstash.Base.Int.{ℤ, pos, negsuc}
use secretstash.Base.Result.{Result, ok, err}
use secretstash.Base.Text.{ascii}
use secretstash.Shamir.Codec.{Codec}
use secretstash.Shamir.Raw.{Rand}
use secretstash.Crypto.{Ciphers}
use secretstash.Store.{Time}
use secretstash.Api.{
  Api, ApiError, Response, wrapped, unwrapped, peeked, done, healthy, failure, ParseDuration,
  write_error, rate_limited, too_many, handle_health,
}
use secretstash.Api.Handlers.{handle_wrap, handle_unwrap, handle_peek, handle_revoke, rate_limit}
use secretstash.Api.Json.{Json}
use secretstash.Api.Remote.{Net, remote_ip}

-- A header is its name and its value.
pub record Reply : Type 0 where
  pub status : ℕ
  pub headers : List (Bytes × Bytes)
  pub body : Bytes

pub record Request : Type 0 where
  pub method : Bytes
  pub path : Bytes
  -- r.Header.Get
  pub header : Bytes → Bytes
  pub remote_addr : Bytes
  pub body : Bytes

-- What the clock and the random source answer while one request is served: the times before and after
-- the store is locked, and the number of the next call of rand.Read.
pub record Moment : Type 0 where
  pub now : Time
  pub later : Time
  pub call : ℕ

unfoldable pub status_of : Response → ℕ
status_of done = 204
status_of (failure status e) = status
status_of (wrapped token expiry reads url) = 200
status_of (unwrapped secret reads created) = 200
status_of (peeked expiry reads) = 200
status_of (healthy version uptime) = 200

abbrev pub content_type : Bytes × Bytes
content_type = (ascii "Content-Type", ascii "application/json")

-- writeJSON, and the bare status of a revocation.
unfoldable pub write_json : Json → Response → Reply
unfolding status_of
write_json json done = record { status = 204; headers = []; body = [] }
write_json json response = record {
  status = status_of response;
  headers = content_type ∷ [];
  body = json.write_response response;
}

pub data Endpoint : Type 0 where
  wrap unwrap peek revoke health : Endpoint

-- The patterns that Routes registers.
abbrev pub endpoints : List (Bytes × Endpoint)
endpoints =
    (ascii "POST /v1/wrap", wrap)
    ∷ (ascii "POST /v1/unwrap", unwrap)
    ∷ (ascii "GET /v1/peek", peek)
    ∷ (ascii "DELETE /v1/secret", revoke)
    ∷ (ascii "GET /v1/sys/health", health)
    ∷ []

-- http.ServeMux on these patterns: the handler for a method and a path, or its own reply.
abbrev pub Mux : Type 0
Mux = List (Bytes × Endpoint) → Bytes → Bytes → Result Reply Endpoint

-- TokenHeader
abbrev pub token_header : Bytes
token_header = ascii "X-Stash-Token"

-- noStore
unfoldable pub no_store : Reply → Reply
no_store r = record r { headers = (ascii "Cache-Control", ascii "no-store") ∷ r.headers }

-- The limit of maxBytes: int64(a.cfg.MaxSecretSize) + 4096.
unfoldable pub body_limit : ℤ → ℕ
body_limit (pos n) = n + 4096
body_limit (negsuc n) = 4096 - (n + 1)

-- The reply of rateLimit to a request that it refuses.
unfoldable pub refusal : Json → Reply
unfolding write_json
refusal json =
    let r = write_json json (write_error 429 rate_limited too_many) in
    record r { headers = (ascii "Retry-After", ascii "10") ∷ r.headers }

-- What the server is made of and set up with.
pub record Setup : Type 1 where
  pub codec : Codec
  pub ciphers : Ciphers
  pub rand : Rand
  pub parse : ParseDuration
  pub json : Json
  pub net : Net
  pub mux : Mux
  -- RealIPHeader
  pub real_ip_header : Bytes
  pub version : Bytes

module _ (setup : Setup) where
  open setup use {codec, ciphers, rand, parse, json, net, mux, real_ip_header, version}

  abbrev pub reply : Api × Response → Api × Reply
  reply (a, response) = (a, write_json json response)

  -- The handler of a route. The reader of maxBytes yields no more of the body than its limit.
  unfoldable pub handle : Moment → Request → Bytes → Endpoint → Api → Api × Reply
  unfolding body_limit write_json
  handle m req ip wrap a = reply (
      handle_wrap codec ciphers parse rand a m.now m.call
        (json.read_request (take (body_limit a.cfg.max_secret_size) req.body)))
  handle m req ip unwrap a =
      reply (handle_unwrap codec ciphers parse a m.now m.later ip (req.header token_header))
  handle m req ip peek a =
      reply (handle_peek codec ciphers parse a m.now m.later ip (req.header token_header))
  handle m req ip revoke a =
      reply (handle_revoke codec ciphers parse a m.now m.later ip (req.header token_header))
  handle m req ip health a = reply (a, handle_health version a m.now)

  unfoldable pub dispatch : Moment → Request → Bytes → Result Reply Endpoint → Api → Api × Reply
  unfolding handle
  dispatch m req ip (err r) a = (a, r)
  dispatch m req ip (ok e) a = handle m req ip e a

  unfoldable pub serve : Moment → Request → Api → Api × Reply
  unfolding dispatch refusal no_store
  serve m req a =
      let ip = remote_ip net real_ip_header req.header req.remote_addr in
      let (a', r) =
        rate_limit (dispatch m req ip (mux endpoints req.method req.path)) (refusal json) a m.now
          ip in
      (a', no_store r)
