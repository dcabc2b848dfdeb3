-- ===== src/Tests/Sharing.antt =====
-- A run of wrap in split mode, and of combine on two of three shares.
use secretstash.Base.{
  ◌≤◌, ◌≡◌, refl, ap, [], ◌∷◌, map, Option, none, some, true, false, Bytes, length, get_or, arith,
  lookup, insert, bytes_dec, ℕ_discrete,
}
use secretstash.Base.Int.{ℤ, pos}
use secretstash.Base.Result.{ok, ok_inj}
use secretstash.Base.Text.{ascii}
use secretstash.Shamir.Share.Combine.{Separate}
use secretstash.Store as store
use secretstash.Api.{Api, Response, wrapped, read_wrap}
use secretstash.Api as api
use secretstash.Api.Handlers.{admit, handle_wrap}
use secretstash.Api.RateLimit.{
  allow, peek_ok, refill_locked, refilled, gc_locked, charge, new_rate_limiter,
}
use secretstash.Api.Http.{Moment, wrap, unwrap, endpoints, body_limit}
use secretstash.Api.Http.Admit.{caller}
use secretstash.Crypto as crypto
use secretstash.Cli.{Flag, Parsed, terminal, client_flags, body_max, exit_ok}
use secretstash.Cli.Commands.{combine_all}
use secretstash.Cli.Wrap.{wrap_flags}
use secretstash.Cli.Delivery.{unwrap_request}
use secretstash.Cli.Sharing.{Shared, asked_of, wrap_request_of, admitted}
use secretstash.Cli.RoundTrip.{WrapsInParts, combine_all-wrap_flags}
use secretstash.Cli.Calls.{Reaches}
use secretstash.Tests.Samples.{codec, ciphers, rand, rand-Fills, rand-Draws}
use secretstash.Tests.Secrets.{token}
use secretstash.Tests.Handlers.{parse, server}
use secretstash.Tests.Wire.{setup, lib, flags, json, caller_addr, network, network-Reaches}

abbrev morning : Moment
morning = record { now = 0; later = 0; call = 0 }

abbrev evening : Moment
evening = record { now = 5; later = 5; call = 9 }

abbrev secret : Bytes
secret = 1 ∷ 2 ∷ []

abbrev numbers : Flag → Option ℤ
numbers Flag.shares = some (pos 3)
numbers Flag.threshold = some (pos 2)
numbers Flag.reads = some (pos 3)
numbers _ = none

abbrev texts : Flag → Option Bytes
texts Flag.addr = some flags.addr
texts _ = none

-- wrap --shares 3 --threshold 2 --reads 3, with the address of the sample network.
abbrev line : Parsed
line = record {
  text = texts;
  number = numbers;
  switch = λ f. none;
  texts = λ f. [];
  args = secret ∷ [];
}

abbrev before : Api
before = admitted setup lib (network morning) caller_addr morning rand [] server

abbrev after : Api × Response
after = handle_wrap codec ciphers parse rand before 0 0 (some (asked_of line secret))

in_parts : WrapsInParts lib line secret 3 2
in_parts = record {
  args = refl;
  shares = refl;
  threshold = refl;
  plain = unfold client_flags in refl;
  some_secret = λ p. cc;
  low = omega arith;
  high = omega arith;
  few = omega arith;
}

wrap_route : setup.mux endpoints (ascii "POST") (ascii "/v1/wrap") ≡ ok wrap
unfolding lookup bytes_dec ℕ_discrete
wrap_route = refl

unwrap_route : setup.mux endpoints (ascii "POST") (ascii "/v1/unwrap") ≡ ok unwrap
unfolding lookup bytes_dec ℕ_discrete
unwrap_route = refl

wrap_admitted :
    (admit server 0
      (caller setup (wrap_request_of setup lib (network morning) caller_addr morning rand [] []))).1
    ≡ true
unfolding admit allow peek_ok refill_locked refilled charge gc_locked api.new store.new lookup
    insert new_rate_limiter
wrap_admitted = refl

unwrap_admitted :
    (admit after.0 5
      (caller setup (unwrap_request setup lib (network evening) flags caller_addr evening token))).1
    ≡ true
unfolding admit allow peek_ok refill_locked refilled charge gc_locked api.new store.new lookup
    insert new_rate_limiter handle_wrap api.read_wrap crypto.new_token crypto.seal store.put
    ℕ_discrete bytes_dec secretstash.Api.Remote.remote_ip
unwrap_admitted = refl

limit_value : body_limit before.cfg.max_secret_size ≡ 69632
unfolding body_limit admit allow peek_ok refill_locked refilled charge gc_locked api.new store.new
    lookup insert new_rate_limiter
limit_value = refl

fits :
    (body : Bytes)
    → json.write_request secret (pos 3) [] ≡ ok body
    → length body ≤ body_limit before.cfg.max_secret_size
fits body e = omega (arith, limit_value, ap length (ok_inj e))

accepted :
    read_wrap setup.parse before.cfg (some (asked_of line secret))
    ≡ ok (secret, pos 86400000000000, pos 3)
unfolding read_wrap api.new admit allow peek_ok refill_locked refilled charge gc_locked store.new
    lookup insert new_rate_limiter
accepted = refl

answered :
    handle_wrap codec ciphers setup.parse rand before 0 0 (some (asked_of line secret))
    ≡ (after.0, wrapped token 86400000000000 (pos 3) none)
unfolding handle_wrap read_wrap api.new store.new store.put crypto.new_token crypto.seal
    crypto.encode_token admit allow peek_ok refill_locked refilled charge gc_locked lookup insert
    new_rate_limiter
answered = refl

picks-Separate : Separate (2 ∷ 0 ∷ [])
picks-Separate = (((λ p. absurd (omega arith)), tt), (tt, tt))

short : length (json.write_response (wrapped token 86400000000000 (pos 3) none)) ≤ body_max
unfolding crypto.encode_token
short = omega arith

line-Reaches : Reaches setup lib (network morning) (client_flags lib line).addr caller_addr morning
unfolding client_flags
line-Reaches = network-Reaches morning

combine_all-wrap_flags_example :
    let o = wrap_flags lib codec rand [] (network morning) terminal line server in
    (s : Shared lib codec rand 3 2 token (pos 3) after.0 o) × (let c =
        combine_all lib
          (network evening)
          codec
          flags
          false
          (map (λ i. get_or s.parts i []) (2 ∷ 0 ∷ []))
          o.world in
      (c.stdout ≡ secret) × (c.code ≡ exit_ok))
combine_all-wrap_flags_example =
    combine_all-wrap_flags setup lib (network morning) (network evening) caller_addr caller_addr
      morning evening rand [] terminal line flags secret 3 2 (2 ∷ 0 ∷ []) server after.0 token
      86400000000000 (pos 3) none (pos 86400000000000) (pos 3) rand-Fills rand-Fills rand-Draws
      in_parts refl line-Reaches (network-Reaches evening) wrap_route unwrap_route wrap_admitted
      unwrap_admitted refl refl refl fits short (omega arith) accepted answered (omega arith)
      (omega arith, (omega arith, tt)) picks-Separate (omega arith)
