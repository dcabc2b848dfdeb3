-- ===== src/Tests/Handlers.antt =====
-- Runs of the handlers, the rate limiter and the labels of the metrics.
use secretstash.Base.{
  ℕ, ◌+◌, ◌-◌, ◌*◌, ◌≤◌, ◌≡◌, ◌≢◌, refl, List, [], ◌∷◌, Option, none, some, Bytes, drop, false,
  length, arith,
}
use secretstash.Base.Int.{pos}
use secretstash.Base.Result.{ok}
use secretstash.Crypto.{new_token, encode_token, seal}
use secretstash.Store.{new, put}
use secretstash.Api.{
  Config, Api, WrapRequest, Response, wrapped, unwrapped, ParseDuration, read_wrap,
}
use secretstash.Api as api
use secretstash.Api.Handlers.{handle_wrap, handle_unwrap, handle_revoke}
use secretstash.Api.Audit.{unwrap_line, revoke_line}
use secretstash.Api.Audit.Logged.{Logged, handlers-Logged}
use secretstash.Api.Accounts.{Accounted, handle_unwrap-Accounted}
use secretstash.Api.RoundTrip.{handle_unwrap-handle_wrap}
use secretstash.Api.Labels.{quote, read_label, read_label-quote}
use secretstash.Api.RateLimit.{new_rate_limiter}
use secretstash.Api.RateLimit.Bound.{passes, InOrder, last_time, passes-le}
use secretstash.Tests.Samples.{codec, ciphers, rand, rand-Fills}
use secretstash.Tests.Secrets.{memory, token}

abbrev pub parse : ParseDuration
parse d = some (pos (length d))

abbrev pub server : Api
server =
    api.new (new (pos 2) (pos 8) memory)
      (record {
        default_ttl = pos 0;
        max_ttl = pos 0;
        min_ttl = pos 0;
        max_reads = pos 0;
        max_secret_size = pos 0;
        share_base_url = [];
      })
      0

abbrev pub request : Option WrapRequest
request = some (record { secret = 1 ∷ 2 ∷ []; ttl = []; reads = pos 3 })

abbrev pub wrap_answer : Api × Response
wrap_answer = handle_wrap codec ciphers parse rand server 0 0 request

pub accepted : read_wrap parse server.cfg request ≡ ok (1 ∷ 2 ∷ [], pos 86400000000000, pos 3)
unfolding read_wrap api.new
accepted = refl

pub answered :
    handle_wrap codec ciphers parse rand server 0 0 request
    ≡ (wrap_answer.0, wrapped token 86400000000000 (pos 3) none)
unfolding handle_wrap read_wrap api.new new put new_token seal encode_token
answered = refl

handle_unwrap-handle_wrap_example :
    (handle_unwrap codec ciphers parse wrap_answer.0 5 5 (9 ∷ []) token).1
    ≡ unwrapped (1 ∷ 2 ∷ []) (pos 2) 0
handle_unwrap-handle_wrap_example =
    handle_unwrap-handle_wrap codec ciphers parse rand server 0 0 request (1 ∷ 2 ∷ [])
      (pos 86400000000000) (pos 3) wrap_answer.0 token 86400000000000 (pos 3) none 5 5 (9 ∷ [])
      rand-Fills accepted answered (omega arith)

-- Four requests of one address and one of another, with a bucket of two tokens.
abbrev requests : List (ℕ × Bytes)
requests = (5, 1 ∷ []) ∷ (6, 1 ∷ []) ∷ (7, 2 ∷ []) ∷ (7, 1 ∷ []) ∷ (20, 1 ∷ []) ∷ []

requests-InOrder : InOrder 0 requests
requests-InOrder = (omega arith, (omega arith, (omega arith, (omega arith, (omega arith, tt)))))

passes-le_example :
    passes (1 ∷ []) (new_rate_limiter 10 2) requests * 10 ≤ 2 * 10 + (last_time 0 requests - 0)
passes-le_example = passes-le (1 ∷ []) 10 2 0 requests requests-InOrder

-- A value with a backslash, a double quote and a newline.
abbrev label : Bytes
label = b'a' ∷ 92 ∷ 34 ∷ 10 ∷ []

read_label-quote_example : read_label false (drop 1 (quote label)) ≡ some (label, [])
read_label-quote_example = read_label-quote label

token_ne : token ≢ []
unfolding encode_token
token_ne p = cc

handle_unwrap-Accounted_example :
    Accounted server (handle_unwrap codec ciphers parse server 5 5 (9 ∷ []) token) (9 ∷ [])
handle_unwrap-Accounted_example =
    handle_unwrap-Accounted codec ciphers parse server 5 5 (9 ∷ []) token token_ne

handlers-Logged_example :
    Logged server
      (handle_unwrap codec ciphers parse server 5 5 (9 ∷ []) token).0
      (unwrap_line codec ciphers server.secrets 5 5 (9 ∷ []) token)
    × Logged server
        (handle_revoke codec ciphers parse server 5 5 (9 ∷ []) token).0
        (revoke_line codec ciphers server.secrets 5 5 (9 ∷ []) token)
handlers-Logged_example = handlers-Logged codec ciphers parse server 5 5 (9 ∷ []) token
