-- ===== src/Server/Guard.antt =====
-- When the server runs without TLS.
use secretstash.Base.{
  ◌≡◌, refl, ap, subst, ◌++◌, ◌⊎◌, inl, inr, Option, none, some, Bool, true, false, not, ◌&&◌,
  Bool-cases, Bytes,
}
use secretstash.Base.Result.{Result, ok, err, refuse-eq_ok, bind-eq_ok, ok_inj}
use secretstash.Base.Text.{ascii}
use secretstash.Memory.{Memory}
use secretstash.Store.{Time}
use secretstash.Api.Remote.{Net}
use secretstash.Server.{
  Config, Running, self_signed, from_files, one_missing, none_given, load_tls, is_loopback,
  listen_addr, refuses_plain, plain_refusal, running, start,
}
use secretstash.Tls.{Certs, TlsConfig, tls_config, version_tls12, self_signed_cert}

module _ (net : Net) (certs : Certs) where
  open certs use {Cert, load_key_pair}

  -- What loadTLS returned, if it is no plain HTTP: TLS 1.2 or later.
  abbrev pub IsSecure : Option (TlsConfig Cert) → Type 0
  IsSecure none = ⊥
  IsSecure (some t) = t.min_version ≡ version_tls12

  self_signed-IsSecure :
      (c : Config) (now : Time) (r : Option (TlsConfig Cert) × Bytes)
      → self_signed net certs c now ≡ ok r
      → IsSecure r.0
  unfolding self_signed
  self_signed-IsSecure c now r e =
      let (made, m, h) = bind-eq_ok (self_signed_cert net certs c.listen now) _ e in
      subst (λ q. IsSecure q.0) (ok_inj h) refl

  from_files-IsSecure :
      (c : Config) (now : Time) (r : Option (TlsConfig Cert) × Bytes)
      → from_files net certs c ≡ ok r
      → IsSecure r.0
  unfolding from_files
  from_files-IsSecure c now r e =
      loaded (load_key_pair c.tls_cert c.tls_key)
        (refuse-eq_ok (one_missing c) (ascii "--tls-cert and --tls-key must be set together") _ e).1
    where
      loaded :
          (m : Result Bytes Cert)
          → elim m [
            | err t ↦ err (ascii "loading TLS keypair: " ++ t)
            | ok cert ↦ ok (some (tls_config cert), ascii "TLS enabled with " ++ c.tls_cert)
          ]
            ≡ ok r
          → IsSecure r.0
      loaded (err t) h = cc
      loaded (ok cert) h = subst (λ q. IsSecure q.0) (ok_inj h) refl

  load_tls-IsSecure :
      (c : Config) (now : Time) (r : Option (TlsConfig Cert) × Bytes)
      → load_tls net certs c now ≡ ok r
      → (c.dev ≡ true) ⊎ IsSecure r.0
  unfolding load_tls
  load_tls-IsSecure c now r e = elim (Bool-cases c.dev) [
    | inl h ↦ inl h
    | inr h ↦ elim (Bool-cases (none_given c)) [
      | inl g ↦ inr (self_signed-IsSecure c now r (rw (h, g) at e))
      | inr g ↦ inr (from_files-IsSecure c now r (rw (h, g) at e))
    ]
  ]

  -- A server that starts serves TLS 1.2 or later, or it was started with --dev, and with
  -- --dev-allow-remote or on an address of this machine.
  pub start-IsSecure :
      (quote : Bytes → Bytes) (c : Config) (now : Time) (memory : Memory) (r : Running Cert)
      → start net certs quote c now memory ≡ ok r
      → IsSecure r.tls
        ⊎ ((c.dev ≡ true)
            × ((c.dev_allow_remote ≡ true)
                ⊎ (is_loopback net (listen_addr net certs c.listen) ≡ true)))
  unfolding start refuses_plain running
  start-IsSecure quote c now memory r e =
      let addr = listen_addr net certs c.listen in
      let c' : Config = record c { listen = addr } in
      let g =
        refuse-eq_ok (refuses_plain net certs c' addr) (plain_refusal net certs (quote addr)) _ e in
      let ((tls, description), l, same) = bind-eq_ok (load_tls net certs c' now) _ g.1 in
      elim (load_tls-IsSecure c' now (tls, description) l) [
        | inl dev ↦ inr (dev, allowed c.dev c.dev_allow_remote (is_loopback net addr) dev g.0)
        | inr secure ↦ inl (subst IsSecure (ap (λ q. q.tls) (ok_inj same)) secure)
      ]
    where
      allowed :
          (dev remote loopback : Bool)
          → dev ≡ true
          → (dev && (not remote && not loopback)) ≡ false
          → (remote ≡ true) ⊎ (loopback ≡ true)
      allowed false remote loopback h g = cc
      allowed true true loopback h g = inl refl
      allowed true false true h g = inr refl
      allowed true false false h g = cc
