-- ===== src/Server.antt =====
-- internal/server: what the server is set up with, and when it refuses to start. The
-- certificates are in Tls.antt.
pub mod Http
pub mod Guard
pub mod Pins
pub mod Banner
pub mod Lifecycle
use secretstash.Base.{
  ℕ, ◌+◌, ◌-◌, ◌*◌, ◌≡◌, List, [], ◌∷◌, ◌++◌, Option, none, some, Bytes, Bool, true, false, not,
  ◌&&◌, ◌||◌, bytes_dec, ite, if◌then◌else◌,
}
use secretstash.Base.Int.{ℤ}
use secretstash.Base.Result.{Result, ok, err, ◌>>=◌, ◌>>◌, refuse}
use secretstash.Base.Text.{ascii, trim_slashes}
use secretstash.Memory.{Memory}
use secretstash.Store as store
use secretstash.Store.{Time, Store}
use secretstash.Api as api
use secretstash.Api.{Api}
use secretstash.Api.Remote.{Net}
use secretstash.Tls.{Certs, TlsConfig, tls_config, self_signed_cert}

-- Config, with the limits of the store that are asked for.
pub record Config : Type 0 where
  pub listen : Bytes
  pub tls_cert : Bytes
  pub tls_key : Bytes
  pub dev : Bool
  pub dev_allow_remote : Bool
  pub real_ip_header : Bytes
  pub no_ui : Bool
  pub no_metrics : Bool
  pub share_base_url : Bytes
  pub api : api.Config
  pub max_secrets : ℤ
  pub max_tombstones : ℤ

-- isLoopback
unfoldable pub is_loopback : Net → Bytes → Bool
unfolding bytes_dec
is_loopback net listen = elim (net.split_host_port listen) [
  | none ↦ false
  | some (host, port) ↦
      ite (bytes_dec host (ascii "localhost")) true
        (elim (net.parse_ip host) [ none ↦ false | some ip ↦ net.is_loopback_ip ip ])
]

abbrev is_empty : Bytes → Bool
is_empty [] = true
is_empty (c ∷ s) = false

-- The empty tests of loadTLS.
unfoldable pub one_missing : Config → Bool
one_missing c = is_empty c.tls_cert || is_empty c.tls_key

unfoldable pub none_given : Config → Bool
none_given c = is_empty c.tls_cert && is_empty c.tls_key

abbrev pub plain_description : Bytes
plain_description = ascii "TLS DISABLED (--dev mode): traffic is plaintext"

-- A server that is ready: `none` is plain HTTP.
pub record Running (Cert : Type 0) : Type 0 where
  pub listen : Bytes
  pub tls : Option (TlsConfig Cert)
  pub description : Bytes
  pub state : Api
  pub real_ip_header : Bytes
  pub serves_metrics : Bool
  pub serves_ui : Bool

module _ (net : Net) (certs : Certs) where
  open certs use {Cert, load_key_pair}

  -- loadTLS: the TLS config, or none for plain HTTP, and its description.
  unfoldable pub self_signed : Config → Time → Result Bytes (Option (TlsConfig Cert) × Bytes)
  unfolding self_signed_cert
  self_signed c now = do
    (cert, fingerprint) ← self_signed_cert net certs c.listen now
    ok (
      some (tls_config cert),
      ascii "TLS enabled with ephemeral self-signed certificate (never written to disk)\n"
          ++ (ascii "  certificate SHA-256 fingerprint: "
              ++ (fingerprint
                  ++ ascii "\n  clients: use --tls-skip-verify or pin the fingerprint above")),
    )

  unfoldable pub from_files : Config → Result Bytes (Option (TlsConfig Cert) × Bytes)
  unfolding one_missing
  from_files c = do
    refuse (one_missing c) (ascii "--tls-cert and --tls-key must be set together")
    elim (load_key_pair c.tls_cert c.tls_key) [
      | err e ↦ err (ascii "loading TLS keypair: " ++ e)
      | ok cert ↦ ok (some (tls_config cert), ascii "TLS enabled with " ++ c.tls_cert)
    ]

  unfoldable pub load_tls : Config → Time → Result Bytes (Option (TlsConfig Cert) × Bytes)
  unfolding none_given from_files self_signed
  load_tls c now =
      let files = from_files c in
      let fresh = self_signed c now in
      if c.dev then ok (none, plain_description) else if none_given c then fresh else files

  abbrev pub scheme : Option (TlsConfig Cert) → Bytes
  scheme none = ascii "http"
  scheme (some t) = ascii "https"

  -- cfg.Listen with its default.
  unfoldable pub listen_addr : Bytes → Bytes
  listen_addr [] = ascii "127.0.0.1:8200"
  listen_addr (c ∷ s) = c ∷ s

  -- cfg.ShareBaseURL with its default.
  unfoldable pub base_url : Bytes → Option (TlsConfig Cert) → Bytes → Bytes
  base_url [] tls listen = scheme tls ++ (ascii "://" ++ listen)
  base_url (c ∷ s) tls listen = c ∷ s

  -- The guard of Run on plain HTTP; `quoted` is %q of the address.
  unfoldable pub refuses_plain : Config → Bytes → Bool
  unfolding is_loopback
  refuses_plain c listen = c.dev && (not c.dev_allow_remote && not (is_loopback net listen))

  abbrev pub plain_refusal : Bytes → Bytes
  plain_refusal quoted =
      ascii "--dev serves plaintext; refusing non-loopback listen "
      ++ (quoted ++ ascii " without --dev-allow-remote")

  -- The configuration of the API, with the base URL of the share links.
  abbrev pub api_config : Config → Bytes → api.Config
  api_config c base = record c.api { share_base_url = trim_slashes base }

  unfoldable pub running : Config → Option (TlsConfig Cert) → Bytes → Time → Memory → Running Cert
  unfolding base_url
  running c tls description now memory = record {
    listen = c.listen;
    tls = tls;
    description = description;
    state =
        api.new (store.new c.max_secrets c.max_tombstones memory)
          (api_config c (base_url c.share_base_url tls c.listen)) now;
    real_ip_header = c.real_ip_header;
    serves_metrics = not c.no_metrics;
    serves_ui = not c.no_ui;
  }

  -- Run, up to the sockets: an error, or what it serves.
  unfoldable pub start : (Bytes → Bytes) → Config → Time → Memory → Result Bytes (Running Cert)
  unfolding listen_addr refuses_plain load_tls running
  start quote c now memory = do
    let c' = record c { listen = listen_addr c.listen }
    refuse (refuses_plain c' c'.listen) (plain_refusal (quote c'.listen))
    (tls, description) ← load_tls c' now
    ok (running c' tls description now memory)
