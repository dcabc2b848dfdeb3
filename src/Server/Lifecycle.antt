-- ===== src/Server/Lifecycle.antt =====
-- Run of internal/server/server.go, from the start of the server to its end: requests, ticks of the
-- janitor, signals, and errors of the listening socket.
pub mod History
use secretstash.Base.{
  ℕ, ◌+◌, ◌*◌, ◌≡◌, refl, sym, ap, ◌∙◌, List, [], ◌∷◌, ◌++◌, Option, none, some, Bytes,
}
use secretstash.Base.Result.{Result, ok, err}
use secretstash.Base.Text.{ascii}
use secretstash.Memory.{Memory}
use secretstash.Store.{Time, SecretId, Store, purge}
use secretstash.Store.Calls.{Call, purges, step, run}
use secretstash.Api.Remote.{Net}
use secretstash.Api.Http.{Request, Moment, Reply, Setup}
use secretstash.Tls.{Certs, TlsConfig}
use secretstash.Server.{Config, Running, listen_addr, scheme, start}
use secretstash.Server.Http.{Site, Part, v1, metrics, ui, parts, handle_part, respond}
use secretstash.Server.Banner.{banner}

abbrev second : Time
second = 1000000000

-- The http.Server that Run sets up, with its times in nanoseconds.
pub record HttpServer (Cert : Type 0) : Type 0 where
  pub addr : Bytes
  pub tls_config : Option (TlsConfig Cert)
  pub read_header_timeout : Time
  pub read_timeout : Time
  pub write_timeout : Time
  pub idle_timeout : Time
  pub max_header_bytes : ℕ

unfoldable pub http_server : {Cert : Type 0} → Running Cert → HttpServer Cert
http_server r = record {
  addr = r.listen;
  tls_config = r.tls;
  read_header_timeout = 5 * second;
  read_timeout = 10 * second;
  write_timeout = 10 * second;
  idle_timeout = 60 * second;
  max_header_bytes = 16 * 1024;
}

-- What happens while Run waits: a request, a tick of the janitor, or the goroutine of the socket ends with
-- ErrServerClosed, which it keeps for itself.
pub data Event : Type 0 where
  arrives : Moment → Request → Event
  ticks : Time → (SecretId → Time) → Event
  closes : Event

-- What the select of Run receives: the error of the socket, or SIGINT or SIGTERM.
pub data Ending : Type 0 where
  fails : Bytes → Ending
  interrupted : Ending

-- The server while Run waits.
unfoldable pub wait : {Cert : Type 0} → Site → Running Cert → List Event → Running Cert
wait site r [] = r
wait site r (arrives m req ∷ events) = wait site (respond site r m req).0 events
wait site r (ticks now clock ∷ events) =
    wait site (record r { state = record r.state { secrets = purge r.state.secrets now clock } })
      events
wait site r (closes ∷ events) = wait site r events

-- What Run returns behind the select; `shut_down` is the result of srv.Shutdown.
unfoldable pub finish : Result Bytes (Unit {0}) → Ending → Result Bytes (Unit {0})
finish shut_down (fails e) = err e
finish shut_down interrupted = shut_down

-- What Run leaves: the text that it prints on standard error, what it listened with and the server if it
-- started, and the result.
pub record Ran (Cert : Type 0) : Type 0 where
  pub printed : Bytes
  pub listened : Option (HttpServer Cert)
  pub served : Option (Running Cert)
  pub result : Result Bytes (Unit {0})

module _ (net : Net) (certs : Certs) (site : Site) (quote : Bytes → Bytes)
    (shut_down : Result Bytes (Unit {0})) where
  open certs use {Cert}

  -- Run, behind what starts.
  unfoldable pub run_started : Config → List Event → Ending → Result Bytes (Running Cert) → Ran Cert
  unfolding wait finish banner http_server
  run_started c events ending (err e) = record {
    printed = [];
    listened = none;
    served = none;
    result = err e;
  }
  run_started c events ending (ok r) = record {
    printed =
        banner (record c { listen = r.listen }) (scheme net certs r.tls) r.description
          site.setup.version;
    listened = some (http_server r);
    served = some (wait site r events);
    result = finish shut_down ending;
  }

  -- Run, on what happens until it ends.
  unfoldable pub run_server : Config → Time → Memory → List Event → Ending → Ran Cert
  unfolding run_started start
  run_server c now memory events ending =
      run_started c events ending (start net certs quote c now memory)
