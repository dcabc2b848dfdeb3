-- ===== src/Cli/Run.antt =====
-- internal/cli/cli.go: the dispatch on the command, and the server command.
use secretstash.Base.{
  List, [], ◌∷◌, ◌++◌, Option, none, some, Bytes, Bool, true, false, Assoc, lookup, bytes_dec,
}
use secretstash.Base.Int.{ℤ, pos}
use secretstash.Base.Result.{Result, ok, err}
use secretstash.Base.Text.{ascii, line}
use secretstash.Shamir.Codec.{Codec}
use secretstash.Shamir.Raw.{Rand}
use secretstash.Server as daemon
use secretstash.Cli.{given, Network, Client, Stdin, Outcome, fail, exit_ok, exit_error, exit_usage}
use secretstash.Cli.Commands.{cmd_unwrap, cmd_combine, cmd_peek, cmd_revoke, cmd_status}
use secretstash.Cli.Wrap.{cmd_wrap}

-- The flags of the server command, as Parse leaves them.
pub record ServerFlags : Type 0 where
  pub listen : Option Bytes
  pub tls_cert : Option Bytes
  pub tls_key : Option Bytes
  pub dev : Option Bool
  pub dev_allow_remote : Option Bool
  pub real_ip_header : Option Bytes
  pub trust_proxy : Option Bool
  pub no_ui : Option Bool
  pub no_metrics : Option Bool
  pub share_base_url : Option Bytes
  pub max_secret_size : Option ℤ
  pub max_secrets : Option ℤ
  pub default_ttl : Option ℤ
  pub max_ttl : Option ℤ
  pub max_reads : Option ℤ

-- -trust-proxy stands for -real-ip-header X-Forwarded-For, unless that is given.
unfoldable pub real_ip_header_of : Bool → Bytes → Bytes
real_ip_header_of true [] = ascii "X-Forwarded-For"
real_ip_header_of false [] = []
real_ip_header_of trust (c ∷ s) = c ∷ s

unfoldable pub deprecation : Bool → Bytes → Bytes
deprecation true [] = line (
    ascii
      "warning: -trust-proxy is deprecated; use -real-ip-header X-Forwarded-For (or CF-Connecting-IP behind Cloudflare)")
deprecation false [] = []
deprecation trust (c ∷ s) = []

-- The configuration that cmdServer builds.
unfoldable pub server_config : ServerFlags → daemon.Config
unfolding real_ip_header_of
server_config f = record {
  listen = given f.listen (ascii "127.0.0.1:8200");
  tls_cert = given f.tls_cert [];
  tls_key = given f.tls_key [];
  dev = given f.dev false;
  dev_allow_remote = given f.dev_allow_remote false;
  real_ip_header = real_ip_header_of (given f.trust_proxy false) (given f.real_ip_header []);
  no_ui = given f.no_ui false;
  no_metrics = given f.no_metrics false;
  share_base_url = given f.share_base_url [];
  api = record {
    default_ttl = given f.default_ttl (pos 86400000000000);
    max_ttl = given f.max_ttl (pos 604800000000000);
    min_ttl = pos 0;
    max_reads = given f.max_reads (pos 100);
    max_secret_size = given f.max_secret_size (pos 65536);
    share_base_url = [];
  };
  max_secrets = given f.max_secrets (pos 10000);
  max_tombstones = pos 0;
}

-- What the server command takes from outside: the parser of its flags, and server.Run, with the text of
-- its error.
pub record ServerLib (W : Type 0) : Type 0 where
  pub parse_flags : List Bytes → Result Bytes ServerFlags
  pub run : daemon.Config → W → W × Result Bytes (Unit {0})

unfoldable pub cmd_server : {W : Type 0} → ServerLib W → List Bytes → W → Outcome W
unfolding server_config deprecation
cmd_server lib args w = elim (lib.parse_flags args) [
  | err text ↦ fail w text exit_usage
  | ok f ↦
      let printed = deprecation (given f.trust_proxy false) (given f.real_ip_header []) in
      let (w', result) = lib.run (server_config f) w in
      elim result [
        | err e ↦ fail w' (printed ++ line (ascii "error: " ++ e)) exit_error
        | ok u ↦ fail w' printed exit_ok
      ]
]

pub data Command : Type 0 where
  server wrap unwrap combine peek revoke status version help : Command

-- The cases of the switch in runIO.
abbrev pub commands : Assoc Bytes Command
commands =
    (ascii "server", server)
    ∷ (ascii "wrap", wrap)
    ∷ (ascii "unwrap", unwrap)
    ∷ (ascii "combine", combine)
    ∷ (ascii "peek", peek)
    ∷ (ascii "revoke", revoke)
    ∷ (ascii "status", status)
    ∷ (ascii "version", version)
    ∷ (ascii "-h", help)
    ∷ (ascii "--help", help)
    ∷ (ascii "help", help)
    ∷ []

-- The text of usage.
abbrev pub usage : Bytes
usage =
    line (ascii "secretstash: share secrets via one-time self-destructing links")
    ++ (10
        ∷ (line (ascii "Usage: secretstash <command> [flags]")
            ++ (10
                ∷ (line (ascii "Server:")
                    ++ (line (ascii "  server      run the secretstash server (REST API + web UI)")
                        ++ (10
                            ∷ (line (
                                  ascii
                                    "Client (set SECRETSTASH_ADDR or --addr, default https://127.0.0.1:8200):")
                                ++ (line (
                                      ascii
                                        "  wrap        wrap a secret, print its one-time token and share link")
                                    ++ (line (
                                          ascii
                                            "              (--shares N --threshold K splits the token into K-of-N shares)")
                                        ++ (line (
                                              ascii
                                                "  unwrap      consume a read and print the secret to stdout")
                                            ++ (line (
                                                  ascii
                                                    "  combine     reconstruct a split token from K shares, then unwrap the secret")
                                                ++ (line (
                                                      ascii
                                                        "  peek        show a secret's metadata without consuming a read")
                                                    ++ (line (
                                                          ascii
                                                            "  revoke      destroy a secret before it is read")
                                                        ++ (line (
                                                            ascii
                                                            "  status      check server health")
                                                            ++ (line (
                                                            ascii
                                                            "  version     print the client version")
                                                            ++ (10
                                                            ∷ line (
                                                            ascii
                                                            "Run \"secretstash <command> -h\" for command flags.")))))))))))))))))

module _ {W : Type 0} (lib : Client) (server_lib : ServerLib W) (codec : Codec) (rand : Rand)
    (rand_error version_text : Bytes) (network : Network W) where
  unfoldable pub run_command : Stdin → Command → List Bytes → W → Outcome W
  unfolding cmd_server cmd_wrap cmd_unwrap cmd_combine cmd_peek cmd_revoke cmd_status
  run_command stdin server rest = cmd_server server_lib rest
  run_command stdin wrap rest = cmd_wrap lib codec rand rand_error network stdin rest
  run_command stdin unwrap rest = cmd_unwrap lib network rest
  run_command stdin combine rest = cmd_combine lib network codec rest
  run_command stdin peek rest = cmd_peek lib network rest
  run_command stdin revoke rest = cmd_revoke lib network rest
  run_command stdin status rest = cmd_status lib network rest
  run_command stdin version rest = λ w. record {
    world = w;
    stdout = line (ascii "secretstash " ++ version_text);
    stderr = [];
    code = exit_ok;
  }
  run_command stdin help rest =
      λ w. record { world = w; stdout = usage; stderr = []; code = exit_ok }

  -- runIO
  unfoldable pub run_io : Stdin → List Bytes → W → Outcome W
  unfolding run_command
  run_io stdin [] w = fail w usage exit_usage
  run_io stdin (cmd ∷ rest) w = elim (lookup bytes_dec cmd commands) [
    | some c ↦ run_command stdin c rest w
    | none ↦
        fail w (line (ascii "unknown command " ++ lib.print_quoted cmd) ++ (10 ∷ usage)) exit_usage
  ]
