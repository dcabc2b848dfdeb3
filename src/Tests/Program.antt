-- ===== src/Tests/Program.antt =====
-- Runs of the server from its start to its end, and of the program.
use secretstash.Base.{
  lookup, bytes_dec, ℕ_discrete, ◌≡◌, ◌⊎◌, refl, List, [], ◌∷◌, ◌++◌, replicate, none, some, true,
  false, Bytes,
}
use secretstash.Base.Result.{ok, err}
use secretstash.Base.Text.{ascii}
use secretstash.Store.Valid.{IsValid}
use secretstash.Api.Http.{Reply}
use secretstash.Tls.{tls_config}
use secretstash.Web.{Assets}
use secretstash.Server as daemon
use secretstash.Server.{start, load_tls, is_loopback, listen_addr}
use secretstash.Server.Guard.{IsSecure}
use secretstash.Server.Pins.{Pins, load_tls-Pins}
use secretstash.Server.Http.{Site, v1}
use secretstash.Server.Lifecycle.{Event, arrives, ticks, interrupted, wait, run_server}
use secretstash.Server.Lifecycle.History.{run_server-IsValid}
use secretstash.Cli.{Parsed, terminal}
use secretstash.Cli.Commands.{cmd_unwrap, with_flags, with_token}
use secretstash.Cli.Asks.{TokenCommand, name_of, Asks}
use secretstash.Cli.Ends.{Ends}
use secretstash.Cli.Run.{ServerFlags}
use secretstash.Main.{Machine, main, main-Ends, main-Asks}
use secretstash.Tests.Samples.{codec, rand}
use secretstash.Tests.Secrets.{memory, token}
use secretstash.Tests.Wire.{setup, lib, net, network}
use secretstash.Tests.Commands.{certs, config, plain_server, started}
use secretstash.Tests.Traffic.{at, unwrapping}
use secretstash.Tests.Handlers.{server}
use secretstash.Api.{Api}

abbrev missing_page : Reply
missing_page = record { status = 404; headers = []; body = [] }

abbrev assets : Assets
assets = record {
  read_file = λ path. some path;
  not_found = λ req. missing_page;
  file_server = λ req. missing_page;
  mux = λ pages method path. err missing_page;
}

-- A site with the API alone.
abbrev site : Site
site = record {
  setup = setup;
  print = λ n. n ∷ [];
  site_mux = λ parts method path. ok v1;
  assets = assets;
}

abbrev events : List Event
events = arrives (at 1) unwrapping ∷ ticks 2 (λ id. 2) ∷ arrives (at 3) unwrapping ∷ []

served :
    (run_server net certs site (λ s. s) (ok tt) config 0 memory events interrupted).served
    ≡ some (wait site plain_server events)
unfolding run_server
served = rw started refl

run_server-IsValid_example :
    IsValid (wait site plain_server events).state.secrets
    × (IsSecure net certs (wait site plain_server events).tls
        ⊎ ((config.dev ≡ true)
            × ((config.dev_allow_remote ≡ true)
                ⊎ (is_loopback net (listen_addr net certs config.listen) ≡ true))))
run_server-IsValid_example =
    run_server-IsValid net certs site (λ s. s) (ok tt) config 0 memory events interrupted
      (wait site plain_server events) served

abbrev tls_server : daemon.Config
tls_server = record config { dev = false }

-- Twelve bytes of a certificate, and the sum of them for its fingerprint.
abbrev description : Bytes
description =
    ascii "TLS enabled with ephemeral self-signed certificate (never written to disk)\n"
    ++ (ascii "  certificate SHA-256 fingerprint: "
        ++ (replicate 32 12
            ++ ascii "\n  clients: use --tls-skip-verify or pin the fingerprint above"))

made :
    load_tls net certs tls_server 4000000000000
    ≡ ok (some (tls_config (4 ∷ ascii "secretstash")), description)
unfolding load_tls
made = refl

no_files : daemon.none_given tls_server ≡ true
unfolding daemon.none_given
no_files = refl

load_tls-Pins_example :
    Pins net certs tls_server.listen 4000000000000
      (some (tls_config (4 ∷ ascii "secretstash")))
      description
load_tls-Pins_example =
    load_tls-Pins net certs tls_server 4000000000000 (some (tls_config (4 ∷ ascii "secretstash")))
      description refl no_files made

abbrev no_flags : ServerFlags
no_flags = record {
  listen = none;
  tls_cert = none;
  tls_key = none;
  dev = none;
  dev_allow_remote = none;
  real_ip_header = none;
  trust_proxy = none;
  no_ui = none;
  no_metrics = none;
  share_base_url = none;
  max_secret_size = none;
  max_secrets = none;
  default_ttl = none;
  max_ttl = none;
  max_reads = none;
}

-- A command line with no flags.
abbrev no_flags_but : List Bytes → Parsed
no_flags_but args = record {
  text = λ f. none;
  number = λ f. none;
  switch = λ f. none;
  texts = λ f. [];
  args = args;
}

abbrev machine : Machine Api
machine = record {
  lib = record lib { parse_flags = λ command args. ok (no_flags_but args) };
  codec = codec;
  rand = rand;
  rand_error = [];
  network = network (at 3);
  stdin = terminal;
  parse_server_flags = λ args. ok no_flags;
  net = net;
  certs = certs;
  site = site;
  quote = λ s. s;
  shut_down = ok tt;
  now = 0;
  memory = memory;
  events = events;
  ending = interrupted;
}

main-Ends_example : Ends machine.network server (main machine (ascii "unwrap" ∷ token ∷ []) server)
main-Ends_example = main-Ends machine (ascii "unwrap" ∷ token ∷ []) server

main-Asks_example :
    Asks machine.lib machine.network TokenCommand.unwrap
      (token ∷ [])
      server
      (main machine (name_of TokenCommand.unwrap ∷ token ∷ []) server)
main-Asks_example = main-Asks machine TokenCommand.unwrap (token ∷ []) server

-- Without a token there is no request.
unwrap_nothing : (main machine (ascii "unwrap" ∷ []) server).code ≡ 2
unfolding main lookup bytes_dec ℕ_discrete cmd_unwrap with_flags with_token
unwrap_nothing = refl
