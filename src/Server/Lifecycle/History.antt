-- ===== src/Server/Lifecycle/History.antt =====
-- The secrets of a server while Run of internal/server/server.go waits.
use secretstash.Base.{
  ◌≡◌, refl, sym, ap, ◌∙◌, subst, List, [], ◌∷◌, ◌++◌, Option, some, Bytes, ◌⊎◌, true,
}
use secretstash.Base.Result.{Result, ok, err, refuse-eq_ok, bind-eq_ok, ok_inj}
use secretstash.Memory.{Memory}
use secretstash.Store.{Time}
use secretstash.Store.Calls.{Call, purges, step, run, run-append}
use secretstash.Store.Valid.{IsValid, new-IsValid, run-IsValid_from}
use secretstash.Api as api
use secretstash.Api.Remote.{Net}
use secretstash.Api.Http.{Reply, Request, Moment}
use secretstash.Api.Http.Calls.{calls_of, serve-run}
use secretstash.Server.{
  Config, Running, start, running, load_tls, is_loopback, listen_addr, refuses_plain, plain_refusal,
}
use secretstash.Tls.{Certs, TlsConfig}
use secretstash.Server.Guard.{IsSecure, start-IsSecure}
use secretstash.Server.Http.{Site, Part, v1, metrics, ui, parts, trusting, handle_part, respond}
use secretstash.Server.Lifecycle.{
  Event, arrives, ticks, closes, Ending, wait, run_started, run_server,
}

-- The calls of the store that a request to a part of the site makes.
abbrev part_calls : Site → Moment → Request → Result Reply Part → api.Api → List Call
part_calls site m req (err r) a = []
part_calls site m req (ok v1) a = calls_of site.setup m req a
part_calls site m req (ok metrics) a = []
part_calls site m req (ok ui) a = []

handle_part-run :
    (site : Site) (m : Moment) (req : Request) (part : Result Reply Part) (a : api.Api)
    → (handle_part site m req part a).0.secrets ≡ run a.secrets (part_calls site m req part a)
unfolding handle_part run
handle_part-run site m req (err r) a = refl
handle_part-run site m req (ok v1) a = serve-run site.setup m req a
handle_part-run site m req (ok metrics) a = refl
handle_part-run site m req (ok ui) a = refl

module _ {Cert : Type 0} (site : Site) where
  -- The calls of an event.
  abbrev pub event_calls : Running Cert → Event → List Call
  event_calls r (arrives m req) =
      part_calls (trusting site r.real_ip_header) m req
        (site.site_mux (parts r) req.method req.path) r.state
  event_calls r (ticks now clock) = purges now clock ∷ []
  event_calls r closes = []

  unfoldable pub wait_calls : Running Cert → List Event → List Call
  wait_calls r [] = []
  wait_calls r (event ∷ events) =
      event_calls r event ++ wait_calls (wait site r (event ∷ [])) events

  wait_cons :
      (r : Running Cert) (event : Event) (events : List Event)
      → wait site r (event ∷ events) ≡ wait site (wait site r (event ∷ [])) events
  unfolding wait
  wait_cons r (arrives m req) events = refl
  wait_cons r (ticks now clock) events = refl
  wait_cons r closes events = refl

  event-run :
      (r : Running Cert) (event : Event)
      → (wait site r (event ∷ [])).state.secrets ≡ run r.state.secrets (event_calls r event)
  unfolding wait respond run step
  event-run r (arrives m req) =
      handle_part-run (trusting site r.real_ip_header) m req
        (site.site_mux (parts r) req.method req.path) r.state
  event-run r (ticks now clock) = refl
  event-run r closes = refl

  -- Whatever happens while the server waits, its secrets are those after a history of calls of the store:
  -- at most one for each request to /v1/, a purge for each tick, and none for the other parts of the site.
  pub wait-run :
      (r : Running Cert) (events : List Event)
      → (wait site r events).state.secrets ≡ run r.state.secrets (wait_calls r events)
  unfolding wait wait_calls run
  wait-run r [] = refl
  wait-run r (event ∷ events) =
      let r' = wait site r (event ∷ []) in
      ap (λ (q : Running Cert). q.state.secrets) (wait_cons r event events)
      ∙ wait-run r' events
      ∙ ap (λ s. run s (wait_calls r' events)) (event-run r event)
      ∙ sym (run-append r.state.secrets (event_calls r event) (wait_calls r' events))

  event-tls : (r : Running Cert) (event : Event) → (wait site r (event ∷ [])).tls ≡ r.tls
  unfolding wait respond
  event-tls r (arrives m req) = refl
  event-tls r (ticks now clock) = refl
  event-tls r closes = refl

  wait-tls : (r : Running Cert) (events : List Event) → (wait site r events).tls ≡ r.tls
  unfolding wait
  wait-tls r [] = refl
  wait-tls r (event ∷ events) =
      ap (λ (q : Running Cert). q.tls) (wait_cons r event events)
      ∙ wait-tls (wait site r (event ∷ [])) events
      ∙ event-tls r event

module _ (net : Net) (certs : Certs) (site : Site) (quote : Bytes → Bytes)
    (shut_down : Result Bytes (Unit {0})) where
  open certs use {Cert}

  start-IsValid :
      (c : Config) (now : Time) (memory : Memory) (r : Running Cert)
      → start net certs quote c now memory ≡ ok r
      → IsValid r.state.secrets
  unfolding start refuses_plain running api.new
  start-IsValid c now memory r e =
      let addr = listen_addr net certs c.listen in
      let c' : Config = record c { listen = addr } in
      let g =
        refuse-eq_ok (refuses_plain net certs c' addr) (plain_refusal net certs (quote addr)) _ e in
      let ((tls, description), l, same) = bind-eq_ok (load_tls net certs c' now) _ g.1 in
      subst (λ (q : Running Cert). IsValid q.state.secrets) (ok_inj same)
        (new-IsValid c.max_secrets c.max_tombstones memory)

  -- Whatever happens until Run ends, the server that it served has secrets that meet the invariant of the
  -- store, and serves TLS 1.2 or later, or was started with --dev, and with --dev-allow-remote or on an
  -- address of this machine.
  pub run_server-IsValid :
      (c : Config) (now : Time) (memory : Memory) (events : List Event) (ending : Ending)
      (r : Running Cert)
      → (run_server net certs site quote shut_down c now memory events ending).served ≡ some r
      → IsValid r.state.secrets
        × (IsSecure net certs r.tls
            ⊎ ((c.dev ≡ true)
                × ((c.dev_allow_remote ≡ true)
                    ⊎ (is_loopback net (listen_addr net certs c.listen) ≡ true))))
  unfolding run_server run_started
  run_server-IsValid c now memory events ending r e =
      started (start net certs quote c now memory) refl e
    where
      started :
          (m : Result Bytes (Running Cert))
          → start net certs quote c now memory ≡ m
          → (run_started net certs site quote shut_down c events ending m).served ≡ some r
          → IsValid r.state.secrets
            × (IsSecure net certs r.tls
                ⊎ ((c.dev ≡ true)
                    × ((c.dev_allow_remote ≡ true)
                        ⊎ (is_loopback net (listen_addr net certs c.listen) ≡ true))))
      started (err x) q f = cc
      started (ok r') q f =
          let same : wait site r' events ≡ r = cc in
          (
            subst (λ (x : Running Cert). IsValid x.state.secrets) same
                (subst IsValid (sym (wait-run site r' events)) (
                  run-IsValid_from r'.state.secrets (wait_calls site r' events)
                    (start-IsValid c now memory r' q))),
            subst
                (λ (t : Option (TlsConfig Cert)).
                  IsSecure net certs t
                  ⊎ ((c.dev ≡ true)
                      × ((c.dev_allow_remote ≡ true)
                          ⊎ (is_loopback net (listen_addr net certs c.listen) ≡ true))))
                (sym (wait-tls site r' events) ∙ ap (λ (x : Running Cert). x.tls) same)
                (start-IsSecure net certs quote c now memory r' q),
          )
