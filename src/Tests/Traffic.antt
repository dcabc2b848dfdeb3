-- ===== src/Tests/Traffic.antt =====
-- Runs of a server under requests and ticks.
use secretstash.Base.{
  ℕ, ◌≤◌, ◌≡◌, refl, List, [], ◌∷◌, none, some, Bytes, All, length, replicate, arith,
}
use secretstash.Base.Int.{pos}
use secretstash.Base.Text.{ascii}
use secretstash.Base.Result.{ok}
use secretstash.Crypto.{lookup_id, parse_token, encode_token}
use secretstash.Store.{SecretId, Entry, new, take}
use secretstash.Store.Calls.{run}
use secretstash.Api.{Api}
use secretstash.Api as api
use secretstash.Api.RoundTrip.{Live}
use secretstash.Api.Handlers.{unwrap_answer}
use secretstash.Api.Http.Calls.{calls_of}
use secretstash.Api.Http.Calls.Single.{serve-run_call}
use secretstash.Api.Http.Between.{IsServed, unwrap_answer-IsServed}
use secretstash.Api.Http.{Request, Moment, endpoints, serve}
use secretstash.Api.Http.Traffic.{Happening, requests, ticks, happens, history, happens-IsValid}
use secretstash.Api.Http.Delivered.{delivered}
use secretstash.Api.Http.Allowance.{WrapsNothing, history-PutsOther, delivered-le}
use secretstash.Tests.Samples.{codec, ciphers, rand-Fills}
use secretstash.Tests.Secrets.{memory, raw, token}
use secretstash.Tests.Wire.{setup}
use secretstash.Tests.Handlers.{server, request, wrap_answer, accepted, answered}

abbrev pub at : ℕ → Moment
at now = record { now = now; later = now; call = 8 }

abbrev pub asking : Bytes → Bytes → Request
asking method path = record {
  method = method;
  path = path;
  header = λ name. token;
  remote_addr = 9 ∷ [];
  body = [];
}

abbrev pub unwrapping : Request
unwrapping = asking (ascii "POST") (ascii "/v1/unwrap")

-- Two unwraps with a peek and a tick between, and two more.
abbrev traffic : List Happening
traffic =
    requests (at 1) unwrapping
    ∷ requests (at 2) (asking (ascii "GET") (ascii "/v1/peek"))
    ∷ ticks 3 (λ id. 3)
    ∷ requests (at 4) unwrapping
    ∷ requests (at 5) unwrapping
    ∷ requests (at 6) unwrapping
    ∷ []

parsed : parse_token codec token ≡ ok raw
unfolding parse_token encode_token secretstash.Base.ℕ_discrete
parsed = refl

no_wraps : All (WrapsNothing setup) traffic
unfolding secretstash.Base.lookup secretstash.Base.bytes_dec secretstash.Base.ℕ_discrete
no_wraps = ((λ e. cc), ((λ e. cc), (tt, ((λ e. cc), ((λ e. cc), ((λ e. cc), tt))))))

delivered-le_example : delivered setup (lookup_id codec ciphers raw) wrap_answer.0 traffic ≤ 3
delivered-le_example =
    delivered-le setup server 0 0 request (1 ∷ 2 ∷ []) (pos 86400000000000) 2 wrap_answer.0 token
      raw 86400000000000 (pos 3) none traffic rand-Fills accepted answered parsed
      (history-PutsOther setup (lookup_id codec ciphers raw) wrap_answer.0 traffic no_wraps)

abbrev wrapping : Request
wrapping = record {
  method = ascii "POST";
  path = ascii "/v1/wrap";
  header = λ name. [];
  remote_addr = 9 ∷ [];
  body = 0 ∷ 3 ∷ 0 ∷ 1 ∷ 2 ∷ [];
}

abbrev start : List Happening
start = requests (record { now = 0; later = 0; call = 0 }) wrapping ∷ []

abbrev wrapped_server : Api
wrapped_server = happens setup (api.new (new (pos 2) (pos 8) memory) server.cfg 0) start

abbrev entry : Entry
entry = record {
  sealed = record {
    lookup_id = replicate 32 224;
    ciphertext = 0;
    salt = replicate 32 8;
    nonce = replicate 12 9;
  };
  created_at = 0;
  expires_at = 86400000000000;
  reads_remaining = pos 3;
  reads_total = pos 3;
}

live :
    Live codec ciphers
      (λ d. some (pos (length d)))
      wrapped_server.secrets
      token
      raw
      (1 ∷ 2 ∷ [])
      entry
unfolding secretstash.Base.lookup secretstash.Base.insert secretstash.Base.bytes_dec
    secretstash.Base.ℕ_discrete secretstash.Api.Http.Traffic.happens
    secretstash.Api.Http.Traffic.happen serve secretstash.Api.Http.dispatch
    secretstash.Api.Http.handle secretstash.Api.Handlers.rate_limit secretstash.Api.Handlers.admit
    secretstash.Api.RateLimit.allow api.new secretstash.Api.RateLimit.new_rate_limiter
    secretstash.Api.RateLimit.peek_ok secretstash.Api.RateLimit.refill_locked
    secretstash.Api.RateLimit.refilled secretstash.Api.RateLimit.charge
    secretstash.Api.RateLimit.gc_locked secretstash.Api.Handlers.handle_wrap
    secretstash.Api.Handlers.wrap_request secretstash.Api.Handlers.issue
    secretstash.Api.Handlers.store_box secretstash.Api.Handlers.wrap_response api.read_wrap
    secretstash.Crypto.new_token secretstash.Crypto.seal secretstash.Store.put new lookup_id
    secretstash.Crypto.open_box
live = record { parsed = parsed; entry = refl; allocated = omega arith; opened = refl }

-- Between the Take and the Open of an unwrap, two more unwraps use up the reads that are left.
unwrap_answer-IsServed_example :
    IsServed setup wrapped_server.secrets raw
      (1 ∷ 2 ∷ [])
      entry
      (unwrap_answer codec ciphers setup.parse
        (happens setup
          (record wrapped_server {
            secrets = (take wrapped_server.secrets 1 1 (lookup_id codec ciphers raw)).0;
          })
          traffic)
        7
        (9 ∷ [])
        raw
        (take wrapped_server.secrets 1 1 (lookup_id codec ciphers raw)).1).1
unwrap_answer-IsServed_example =
    unwrap_answer-IsServed setup (pos 2) (pos 8) memory server.cfg 0 start traffic 1 1 7 (9 ∷ [])
      token raw (1 ∷ 2 ∷ []) entry wrapped_server refl live (omega arith)

serve-run_call_example :
    (length (calls_of setup (at 1) unwrapping server) ≤ 1)
    × ((serve setup (at 1) unwrapping server).0.secrets
        ≡ run server.secrets (calls_of setup (at 1) unwrapping server))
serve-run_call_example = serve-run_call setup (at 1) unwrapping server
