-- ===== src/Main.antt =====
-- main.go and internal/version/version.go: the program, from its arguments to its exit code. With the
-- server command it is Run of internal/server/server.go, on what happens until that ends.
use secretstash.Base.{refl, List, ◌∷◌, Bytes, lookup, bytes_dec, ℕ_discrete}
use secretstash.Base.Result.{Result}
use secretstash.Base.Text.{ascii}
use secretstash.Memory.{Memory}
use secretstash.Shamir.Codec.{Codec}
use secretstash.Shamir.Raw.{Rand}
use secretstash.Store.{Time}
use secretstash.Api.Remote.{Net}
use secretstash.Tls.{Certs}
use secretstash.Server.Http.{Site}
use secretstash.Server.Lifecycle.{Event, Ending, run_server}
use secretstash.Cli.{Network, Client, Stdin, Outcome}
use secretstash.Cli.Run.{ServerFlags, ServerLib, run_io}
use secretstash.Cli.Ends.{Ends}
use secretstash.Cli.Asks.{
  TokenCommand, unwrap, peek, revoke, name_of, Asks, cmd_unwrap-Asks, cmd_peek-Asks,
  cmd_revoke-Asks,
}
use secretstash.Cli.Codes.Program.{run_io-Ends}

-- Version
abbrev pub version : Bytes
version = ascii "dev"

-- What the program takes from the machine that it runs on. A server that ends its run has met these events
-- and this ending.
pub record Machine (W : Type 0) : Type 1 where
  pub lib : Client
  pub codec : Codec
  pub rand : Rand
  pub rand_error : Bytes
  pub network : Network W
  pub stdin : Stdin
  pub parse_server_flags : List Bytes → Result Bytes ServerFlags
  pub net : Net
  pub certs : Certs
  pub site : Site
  pub quote : Bytes → Bytes
  pub shut_down : Result Bytes (Unit {0})
  pub now : Time
  pub memory : Memory
  pub events : List Event
  pub ending : Ending

module _ {W : Type 0} (machine : Machine W) where
  open machine use {
    lib, codec, rand, rand_error, network, stdin, parse_server_flags, net, certs, site, quote,
    shut_down, now, memory, events, ending,
  }

  -- server.Run for the server command.
  abbrev pub server_lib : ServerLib W
  server_lib = record {
    parse_flags = parse_server_flags;
    run = λ c w. (w, (run_server net certs site quote shut_down c now memory events ending).result);
  }

  -- main, and Run of internal/cli/cli.go, on os.Args[1:].
  unfoldable pub main : List Bytes → W → Outcome W
  unfolding run_io
  main args w = run_io lib server_lib codec rand rand_error version network stdin args w

  -- Whatever the arguments, the program ends in one of two ways. It sends no request, leaves the servers as
  -- they are and exits with 0, 1 or 2. Or it sends one request and exits with 1 for no answer, 3 for 410, 4
  -- for 404, 0 or 1 for 200 and 204, and 1 for another status.
  pub main-Ends : (args : List Bytes) (w : W) → Ends network w (main args w)
  unfolding main
  main-Ends args w =
      run_io-Ends lib server_lib codec rand rand_error version network (λ c w. refl) stdin args w

  -- unwrap, peek and revoke send their request exactly if the flags parse, the token is the one argument and
  -- the address makes a URL; the exit code then reports the answer. Otherwise they send nothing and exit with
  -- 2, or with 1 if only the URL is bad.
  pub main-Asks :
      (c : TokenCommand) (args : List Bytes) (w : W)
      → Asks lib network c args w (main (name_of c ∷ args) w)
  unfolding main lookup bytes_dec ℕ_discrete
  main-Asks unwrap args w = cmd_unwrap-Asks lib network args w
  main-Asks peek args w = cmd_peek-Asks lib network args w
  main-Asks revoke args w = cmd_revoke-Asks lib network args w
