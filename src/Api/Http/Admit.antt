-- ===== src/Api/Http/Admit.antt =====
-- What the rate limit lets through to a handler, and what it refuses.
use secretstash.Base.{
  ◌+◌, ◌≤◌, ◌≡◌, ◌≢◌, refl, sym, ap, ◌∙◌, take, Bool, true, false, Bool-cases, inl, inr, Bytes,
  Distinct, bytes_dec, leb, leb→le, if◌then◌else◌, arith,
}
use secretstash.Base.Result.{ok}
use secretstash.Store.{Time}
use secretstash.Api.Counters.{record_rate_limited}
use secretstash.Api.{Api, count}
use secretstash.Api.RateLimit.{RateLimiter, allow, peek_ok}
use secretstash.Api.RateLimit.Cases.{lack_of, AllowCase, allow-cases, peek_ok-lack}
use secretstash.Api.Handlers.{admit, rate_limit, handle_wrap, handle_unwrap}
use secretstash.Api.Remote.{remote_ip}
use secretstash.Api.Http.{
  Setup, Request, Reply, Moment, unwrap, endpoints, wrap, body_limit, token_header, write_json,
  no_store, refusal, handle, dispatch, serve,
}

-- The rate limit leaves the secrets and the configuration as they are.
pub admit-secrets : (a : Api) (now : Time) (ip : Bytes) → (admit a now ip).0.secrets ≡ a.secrets
unfolding admit
admit-secrets a now ip = elim (Bool-cases (allow a.limiter now ip).1) [
  | inl h ↦ rw h refl
  | inr h ↦ rw h refl
]

-- What an address has left at a time: a whole token of its requests, and no debt of failures.
pub record HasBudget (a : Api) (now : Time) (ip : Bytes) : Type 0 where
  pub request : lack_of ip now a.limiter + a.limiter.cost ≤ a.limiter.burst
  pub failures : lack_of ip now a.fail_lim ≤ a.fail_lim.burst

data AdmitCase (a : Api) (now : Time) (ip : Bytes) : Api × Bool → Type 0 where
  charged :
      {b : Api}
      → HasBudget a now ip
      → b.secrets ≡ a.secrets
      → b.cfg ≡ a.cfg
      → b.metrics ≡ a.metrics
      → lack_of ip now b.fail_lim ≡ lack_of ip now a.fail_lim
      → lack_of ip now b.limiter ≡ lack_of ip now a.limiter + a.limiter.cost
      → ((j : Bytes) → ip ≢ j → lack_of j now b.limiter ≡ lack_of j now a.limiter)
      → AdmitCase a now ip (b, true)
  over :
      {b : Api}
      → ¬ HasBudget a now ip
      → b.secrets ≡ a.secrets
      → b.metrics ≡ a.metrics
      → AdmitCase a now ip (b, false)

admit-cases :
    (a : Api) (now : Time) (ip : Bytes)
    → Distinct bytes_dec a.limiter.buckets
    → Distinct bytes_dec a.fail_lim.buckets
    → AdmitCase a now ip (admit a now ip)
unfolding admit
admit-cases a now ip d d' =
    decided (allow a.limiter now ip) (allow-cases a.limiter now ip d) (peek_ok a.fail_lim now ip).0
      (peek_ok a.fail_lim now ip).1 (peek_ok-lack a.fail_lim now ip d').0
      (peek_ok-lack a.fail_lim now ip d').2
  where
    decided :
        (r : RateLimiter × Bool)
        → AllowCase a.limiter now ip r
        → (f : RateLimiter) (budget : Bool)
        → budget ≡ leb (lack_of ip now a.fail_lim) a.fail_lim.burst
        → lack_of ip now f ≡ lack_of ip now a.fail_lim
        → AdmitCase a now ip (
            if r.1
            then (record a { limiter = r.0; fail_lim = f }, budget)
            else (record a { limiter = r.0 }, false))
    decided r (AllowCase.blocked kept unpaid full) f budget h same =
        AdmitCase.over (λ has. omega (arith, full, has.request)) refl refl
    decided r (AllowCase.passed kept paid room) f true h same =
        AdmitCase.charged (record { request = room; failures = leb→le _ _ (sym h) }) refl refl refl
          same paid kept.others
    decided r (AllowCase.passed kept paid room) f false h same =
        AdmitCase.over (λ has. ground (arith, h, has.failures)) refl refl

module _ (setup : Setup) where
  open setup use {codec, ciphers, rand, parse, json, net, mux, real_ip_header}

  -- The address that a request is charged to.
  abbrev pub caller : Request → Bytes
  caller req = remote_ip net real_ip_header req.header req.remote_addr

  pub serve-admitted :
      (m : Moment) (req : Request) (a : Api)
      → (admit a m.now (caller req)).1 ≡ true
      → serve setup m req a ≡ (
          let (a', r) =
            dispatch setup m req
              (caller req)
              (mux endpoints req.method req.path)
              (admit a m.now (caller req)).0 in
          (a', no_store r))
  unfolding serve rate_limit
  serve-admitted m req a h = rw h refl

  pub serve-refused :
      (m : Moment) (req : Request) (a : Api)
      → (admit a m.now (caller req)).1 ≡ false
      → ((serve setup m req a).1 ≡ no_store (refusal json))
        × ((serve setup m req a).0.secrets ≡ a.secrets)
  unfolding serve rate_limit
  serve-refused m req a h = (rw h refl, rw h (admit-secrets a m.now (caller req)))

  -- What becomes of a request: with a budget left it is charged for one token and goes to its handler, and
  -- else it is refused.
  pub data Limited (m : Moment) (req : Request) (a : Api) : Api × Reply → Type 0 where
    served :
        (b : Api)
        → HasBudget a m.now (caller req)
        → b.secrets ≡ a.secrets
        → b.cfg ≡ a.cfg
        → b.metrics ≡ a.metrics
        → lack_of (caller req) m.now b.fail_lim ≡ lack_of (caller req) m.now a.fail_lim
        → lack_of (caller req) m.now b.limiter
          ≡ lack_of (caller req) m.now a.limiter + a.limiter.cost
        → ((j : Bytes) → caller req ≢ j → lack_of j m.now b.limiter ≡ lack_of j m.now a.limiter)
        → Limited m req a (
            let (b', r) = dispatch setup m req (caller req) (mux endpoints req.method req.path) b in
            (b', no_store r))
    refused :
        {b : Api}
        → ¬ HasBudget a m.now (caller req)
        → b.secrets ≡ a.secrets
        → b.metrics ≡ record_rate_limited a.metrics
        → Limited m req a (b, no_store (refusal json))

  -- A request whose address has a whole token of requests left, and has not overdrawn its budget of failures,
  -- pays one token and is handled: no other address pays, and its budget of failures is what it was when the
  -- handler starts. Every other request reaches no handler: it is answered with 429 and counted, and the
  -- secrets are as they were. The two limiters hold each address once.
  pub serve-Limited :
      (m : Moment) (req : Request) (a : Api)
      → Distinct bytes_dec a.limiter.buckets
      → Distinct bytes_dec a.fail_lim.buckets
      → Limited m req a (serve setup m req a)
  unfolding serve rate_limit
  serve-Limited m req a d d' =
      limited (admit a m.now (caller req)) (admit-cases a m.now (caller req) d d')
    where
      limited :
          (r : Api × Bool)
          → AdmitCase a m.now (caller req) r
          → Limited m req a (
              let (b, q) =
                (if r.1
                  then dispatch setup m req (caller req) (mux endpoints req.method req.path) r.0
                  else (count record_rate_limited r.0, refusal json)) in
              (b, no_store q))
      limited r (AdmitCase.charged has secrets cfg metrics same paid others) =
          Limited.served _ has secrets cfg metrics same paid others
      limited r (AdmitCase.over none_left secrets metrics) =
          Limited.refused none_left secrets (ap record_rate_limited metrics)

  -- The answer to an unwrap is that of its handler.
  pub serve-unwrap :
      (m : Moment) (req : Request) (a : Api)
      → (admit a m.now (caller req)).1 ≡ true
      → mux endpoints req.method req.path ≡ ok unwrap
      → (serve setup m req a).1
        ≡ no_store (
            write_json json
              (handle_unwrap codec ciphers parse
                (admit a m.now (caller req)).0
                m.now
                m.later
                (caller req)
                (req.header token_header)).1)
  unfolding dispatch handle
  serve-unwrap m req a h r =
      ap (λ s. s.1) (serve-admitted m req a h)
      ∙ ap (λ e. no_store (dispatch setup m req (caller req) e (admit a m.now (caller req)).0).1) r

  -- The answer to a wrap is that of its handler, on the body up to its limit.
  pub serve-wrap :
      (m : Moment) (req : Request) (a : Api)
      → (admit a m.now (caller req)).1 ≡ true
      → mux endpoints req.method req.path ≡ ok wrap
      → serve setup m req a ≡ (
          let b = (admit a m.now (caller req)).0 in
          let (a', r) =
            handle_wrap codec ciphers parse rand b m.now m.call
              (json.read_request (take (body_limit b.cfg.max_secret_size) req.body)) in
          (a', no_store (write_json json r)))
  unfolding dispatch handle
  serve-wrap m req a h r =
      serve-admitted m req a h
      ∙ ap
          (λ e.
            let (a', q) = dispatch setup m req (caller req) e (admit a m.now (caller req)).0 in
            (a', no_store q))
          r
