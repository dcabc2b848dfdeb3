-- ===== src/Tests/Commands.antt =====
-- Runs of the commands, the routes and the set-up of the server.
use secretstash.Base.{
  ◌≡◌, ◌⊎◌, refl, List, [], ◌∷◌, ◌++◌, none, true, false, Bytes, length, replicate, lookup,
  ℕ_discrete, Distinct, bytes_dec,
}
use secretstash.Base.Int.{pos}
use secretstash.Base.Result.{Result, ok, err}
use secretstash.Base.Text.{ascii}
use secretstash.Shamir.Share.{Failure, split}
use secretstash.Store as store
use secretstash.Api.{Api}
use secretstash.Api as api
use secretstash.Api.RateLimit.{new_rate_limiter}
use secretstash.Api.Remote.{NoComma, remote_ip, remote_ip-append}
use secretstash.Api.Http.{Moment, Request, serve}
use secretstash.Api.Http.Admit.{Limited, serve-Limited}
use secretstash.Cli.{call}
use secretstash.Cli.Commands.{unwrap_with_token}
use secretstash.Cli.Delivery.{unwrap_request}
use secretstash.Cli.Exit.{Tells, unwrap_with_token-Tells}
use secretstash.Server as daemon
use secretstash.Tls.{Certs}
use secretstash.Server.{Running, start, is_loopback, listen_addr}
use secretstash.Server.Guard.{IsSecure, start-IsSecure}
use secretstash.Tests.Samples.{codec, rand}
use secretstash.Tests.Secrets.{memory, raw, token}
use secretstash.Tests.Handlers.{server}
use secretstash.Tests.Wire.{setup, lib, flags, net, caller_addr, network}

abbrev moment : Moment
moment = record { now = 5; later = 5; call = 9 }

abbrev shares_of : Result Failure (List Bytes) → List Bytes
shares_of (ok shares) = shares
shares_of (err e) = []

-- The shares of the token that the server gave out.
abbrev shares : List Bytes
shares = shares_of (split codec rand raw 3 2)

unwrap_with_token-Tells_example :
    Tells
      (call lib (network moment) flags (ascii "POST") (ascii "/v1/unwrap") (7 ∷ []) none server)
      (unwrap_with_token lib (network moment) flags (7 ∷ []) server).code
unwrap_with_token-Tells_example = unwrap_with_token-Tells lib (network moment) flags (7 ∷ []) server

-- A hop that the proxy appends to what a client wrote.
hop-NoComma : NoComma (b'1' ∷ b'.' ∷ [])
hop-NoComma = (λ p. cc, (λ p. cc, tt))

remote_ip-append_example :
    remote_ip net (b'h' ∷ []) (λ n. (b'x' ∷ 44 ∷ b'y' ∷ []) ++ 44 ∷ b'1' ∷ b'.' ∷ []) (9 ∷ [])
    ≡ remote_ip net (b'h' ∷ []) (λ n. b'1' ∷ b'.' ∷ []) (9 ∷ [])
remote_ip-append_example =
    remote_ip-append net (b'h' ∷ []) (b'x' ∷ 44 ∷ b'y' ∷ []) b'1' (b'.' ∷ []) (9 ∷ []) hop-NoComma

-- A limiter with no tokens.
abbrev drained : Api
drained = record server { limiter = new_rate_limiter 100000000 0 }

abbrev unwrap_again : Request
unwrap_again = unwrap_request setup lib (network moment) flags caller_addr moment token

drained-Distinct :
    Distinct bytes_dec drained.limiter.buckets × Distinct bytes_dec drained.fail_lim.buckets
unfolding new_rate_limiter api.new store.new lookup
drained-Distinct = (tt, tt)

serve-Limited_example :
    Limited setup moment unwrap_again drained (serve setup moment unwrap_again drained)
serve-Limited_example =
    serve-Limited setup moment unwrap_again drained drained-Distinct.0 drained-Distinct.1

abbrev pub certs : Certs
certs = record {
  Key = Unit;
  Cert = Bytes;
  load_key_pair = λ cert key. ok cert;
  of_der = λ der key. der;
  generate_key = ok tt;
  rand_int = λ n. ok 4;
  create_certificate = λ template key. ok (4 ∷ template.common_name);
  sha256 = λ b. replicate 32 (length b);
  hex = λ b. b;
}

abbrev pub config : daemon.Config
config = record {
  listen = ascii "localhost";
  tls_cert = [];
  tls_key = [];
  dev = true;
  dev_allow_remote = false;
  real_ip_header = [];
  no_ui = false;
  no_metrics = false;
  share_base_url = [];
  api = server.cfg;
  max_secrets = pos 2;
  max_tombstones = pos 8;
}

-- The server without TLS.
abbrev pub plain_server : Running Bytes
plain_server = daemon.running net certs config none daemon.plain_description 0 memory

pub started : start net certs (λ s. s) config 0 memory ≡ ok plain_server
unfolding start ℕ_discrete
started = refl

start-IsSecure_example :
    IsSecure net certs plain_server.tls
    ⊎ ((config.dev ≡ true)
        × ((config.dev_allow_remote ≡ true)
            ⊎ (is_loopback net (listen_addr net certs config.listen) ≡ true)))
start-IsSecure_example = start-IsSecure net certs (λ s. s) config 0 memory plain_server started
