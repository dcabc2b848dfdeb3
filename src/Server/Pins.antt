-- ===== src/Server/Pins.antt =====
-- The certificate that a server makes for itself, and the fingerprint that it prints.
use secretstash.Base.{
  ◌≤◌, ◌<◌, ◌≡◌, ◌≢◌, refl, sym, ap, ◌∙◌, subst, ◌++◌, ◌⊎◌, inl, inr, [], ◌∷◌, Option, some,
  Option-cases, true, false, Bytes, arith, ◌^◌,
}
use secretstash.Base.Result.{ok, bind-eq_ok, ok_inj}
use secretstash.Base.Text.{ascii}
use secretstash.Store.{Time}
use secretstash.Api.Remote.{Net}
use secretstash.Tls.{
  Names, Template, Certs, TlsConfig, tls_config, host_names, template, self_signed_cert,
}
use secretstash.Server.{Config, none_given, self_signed, load_tls}

-- The names of a certificate cover a host.
abbrev pub Covers : Net → Names → Bytes → Type 0
Covers net names host =
    (names.dns ≡ ascii "localhost" ∷ host ∷ [])
    ⊎ ((ip : Bytes) × (net.parse_ip host ≡ some ip)
        × (names.ips ≡ ascii "127.0.0.1" ∷ ascii "::1" ∷ ip ∷ []))

host_names-Covers :
    (net : Net) (host port : Bytes)
    → host ≢ []
    → Covers net (host_names net (some (host, port))) host
unfolding host_names
host_names-Covers net [] port h = absurd (h refl)
host_names-Covers net (c ∷ host) port h = elim (Option-cases (net.parse_ip (c ∷ host))) [
  | inl e ↦ inl (rw (e, host_names) refl)
  | inr (ip, e) ↦ inr (ip, e, rw (e, host_names) refl)
]

-- A certificate that was signed for this server, and that is valid now; the description has its fingerprint.
pub record Pins (net : Net) (certs : Certs) (listen : Bytes) (now : Time)
    (tls : Option (TlsConfig certs.Cert)) (description : Bytes) : Type 0 where
  pub key : certs.Key
  pub signed : Template
  pub der : Bytes
  pub made : certs.create_certificate signed key ≡ ok der
  pub in_time : (signed.not_before ≤ now) × (now < signed.not_after)
  pub covers :
      (host port : Bytes)
      → net.split_host_port listen ≡ some (host, port)
      → host ≢ []
      → Covers net signed.names host
  pub served : tls ≡ some (tls_config (certs.of_der der key))
  pub printed :
      description
      ≡ ascii "TLS enabled with ephemeral self-signed certificate (never written to disk)\n"
        ++ (ascii "  certificate SHA-256 fingerprint: "
            ++ (certs.hex (certs.sha256 der)
                ++ ascii "\n  clients: use --tls-skip-verify or pin the fingerprint above"))

module _ (net : Net) (certs : Certs) where
  open certs use {Cert, generate_key, rand_int, create_certificate}

  -- Without --dev and with no certificate given, a server serves a certificate that it made: valid when it
  -- starts, for the host that it listens on, and with its fingerprint in the description.
  pub load_tls-Pins :
      (c : Config) (now : Time) (tls : Option (TlsConfig Cert)) (description : Bytes)
      → c.dev ≡ false
      → none_given c ≡ true
      → load_tls net certs c now ≡ ok (tls, description)
      → Pins net certs c.listen now tls description
  unfolding load_tls self_signed self_signed_cert template
  load_tls-Pins c now tls description dev absent e =
      let ((cert, fingerprint), m, h) =
        bind-eq_ok (self_signed_cert net certs c.listen now) _ (rw (dev, absent) at e) in
      let (key, k, h1) = bind-eq_ok generate_key _ m in
      let (serial, n, h2) = bind-eq_ok (rand_int (2 ^ 128)) _ h1 in
      let (der, d, h3) =
        bind-eq_ok (create_certificate (template net c.listen now serial) key) _ h2 in
      let made = ok_inj h3 in
      let shown = ok_inj h in
      record {
        key = key;
        signed = template net c.listen now serial;
        der = der;
        made = d;
        in_time = (omega arith, omega arith);
        covers = λ host port s q.
            subst (λ o. Covers net (host_names net o) host) (sym s)
              (host_names-Covers net host port q);
        served = sym (ap (λ p. p.0) shown) ∙ ap (λ p. some (tls_config p.0)) (sym made);
        printed =
            sym (ap (λ p. p.1) shown)
            ∙ ap
                (λ p.
                  ascii
                    "TLS enabled with ephemeral self-signed certificate (never written to disk)\n"
                  ++ (ascii "  certificate SHA-256 fingerprint: "
                      ++ (p.1
                          ++ ascii
                              "\n  clients: use --tls-skip-verify or pin the fingerprint above")))
                (sym made);
      }
