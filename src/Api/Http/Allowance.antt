-- ===== src/Api/Http/Allowance.antt =====
-- A secret that the server of internal/api/api.go accepts is handed out as often as was asked for, at most.
use secretstash.Base.{
  ℕ, suc, ◌≤◌, ◌≡◌, ◌≢◌, refl, [], ◌∷◌, Bool-cases, inl, inr, All-append, sym, ap, ◌∙◌, List,
  Option, Bytes, All, arith,
}
use secretstash.Base.Int.{ℤ, pos}
use secretstash.Base.Result.{Result, ok, err, ok_inj}
use secretstash.Shamir.Share.Splits.{Fills}
use secretstash.Crypto.{Error, lookup_id, parse_token}
use secretstash.Store.{Time, SecretId}
use secretstash.Store.Calls.{Call, takes, peeks, revokes}
use secretstash.Store.Reads.{allowance, allowance_of, reads_left, PutsOther, reads_of-le-allowance}
use secretstash.Api.{Api, Config, WrapRequest, wrapped, read_wrap}
use secretstash.Api.Handlers.{admit, handle_wrap}
use secretstash.Api.RoundTrip.{handle_wrap-Wraps}
use secretstash.Api.Http.{
  Setup, Reply, Request, Moment, Endpoint, endpoints, wrap, unwrap, peek, revoke, health,
  token_header,
}
use secretstash.Api.Http.Admit.{caller}
use secretstash.Api.Http.Calls.{named, token_calls, header_calls, routed_calls, calls_of}
use secretstash.Api.Http.Traffic.{Happening, requests, ticks, happen, calls, history}
use secretstash.Api.Http.Delivered.{delivered, delivered-le-reads_of}

module _ (setup : Setup) where
  open setup use {codec, ciphers, rand, parse, mux}

  -- No request to wrap.
  abbrev pub WrapsNothing : Happening → Type 0
  WrapsNothing (requests m req) = mux endpoints req.method req.path ≢ ok wrap
  WrapsNothing (ticks now clock) = Unit

  header_calls-PutsOther :
      (id : SecretId) (f : SecretId → Call) (token : Bytes)
      → ((j : SecretId) → PutsOther id (f j))
      → All (PutsOther id) (header_calls setup f token)
  header_calls-PutsOther id f [] h = tt
  header_calls-PutsOther id f (c ∷ cs) h = named_calls (parse_token codec (c ∷ cs))
    where
      named_calls :
          (parsed : Result Error Bytes) → All (PutsOther id) (token_calls f (named setup parsed))
      named_calls (err e) = tt
      named_calls (ok raw) = (h (lookup_id codec ciphers raw), tt)

  routed_calls-PutsOther :
      (id : SecretId) (m : Moment) (req : Request) (cfg : Config) (route : Result Reply Endpoint)
      → route ≢ ok wrap
      → All (PutsOther id) (routed_calls setup m req cfg route)
  routed_calls-PutsOther id m req cfg (err r) h = tt
  routed_calls-PutsOther id m req cfg (ok wrap) h = absurd (h refl)
  routed_calls-PutsOther id m req cfg (ok unwrap) h =
      header_calls-PutsOther id (takes m.now m.later) (req.header token_header) (λ j. tt)
  routed_calls-PutsOther id m req cfg (ok peek) h =
      header_calls-PutsOther id (peeks m.now m.later) (req.header token_header) (λ j. tt)
  routed_calls-PutsOther id m req cfg (ok revoke) h =
      header_calls-PutsOther id (revokes m.now m.later) (req.header token_header) (λ j. tt)
  routed_calls-PutsOther id m req cfg (ok health) h = tt

  calls-PutsOther :
      (id : SecretId) (a : Api) (h : Happening)
      → WrapsNothing h
      → All (PutsOther id) (calls setup a h)
  unfolding calls calls_of
  calls-PutsOther id a (ticks now clock) w = (tt, tt)
  calls-PutsOther id a (requests m req) w = elim (Bool-cases (admit a m.now (caller setup req)).1) [
    | inl h ↦ rw (h, calls_of) (routed_calls-PutsOther id m req _ _ w)
    | inr h ↦ rw (h, calls_of) tt
  ]

  -- Requests that are no wraps put nothing under any ID.
  pub history-PutsOther :
      (id : SecretId) (a : Api) (hs : List Happening)
      → All WrapsNothing hs
      → All (PutsOther id) (history setup a hs)
  unfolding history happen
  history-PutsOther id a [] w = tt
  history-PutsOther id a (h ∷ hs) w =
      All-append (PutsOther id) (calls setup a h) (history setup (happen setup a h) hs)
        (calls-PutsOther id a h w.0) (history-PutsOther id (happen setup a h) hs w.1)

  -- If the server accepts a secret for n + 1 reads and answers with a token, then in any requests and ticks
  -- that follow, if they put nothing more under the ID of the token, at most n + 1 unwraps with this token
  -- are answered with 200. The random source fills slices with bytes.
  pub delivered-le :
      (a : Api) (now : Time) (call : ℕ) (body : Option WrapRequest) (secret : Bytes) (ttl : ℤ)
      (n : ℕ) (a' : Api) (token raw : Bytes) (expiry : Time) (shown : ℤ) (url : Option Bytes)
      (hs : List Happening)
      → Fills rand
      → read_wrap parse a.cfg body ≡ ok (secret, ttl, pos (suc n))
      → handle_wrap codec ciphers parse rand a now call body ≡ (a', wrapped token expiry shown url)
      → parse_token codec token ≡ ok raw
      → All (PutsOther (lookup_id codec ciphers raw)) (history setup a' hs)
      → delivered setup (lookup_id codec ciphers raw) a' hs ≤ suc n
  delivered-le a now call body secret ttl n a' token raw expiry shown url hs fills r w p puts =
      let wraps =
        handle_wrap-Wraps codec ciphers parse rand a now call body secret ttl (pos (suc n)) a' token
          expiry shown url fills r w in
      let id = lookup_id codec ciphers raw in
      let same : wraps.raw ≡ raw = ok_inj (sym wraps.live.parsed ∙ p) in
      let allowed : allowance id a'.secrets ≡ suc n =
        ap (λ t. allowance (lookup_id codec ciphers t) a'.secrets) (sym same)
        ∙ ap allowance_of wraps.live.entry
        ∙ ap reads_left wraps.reads_remaining in
      omega (
        arith,
        delivered-le-reads_of setup id a' hs,
        reads_of-le-allowance id a'.secrets (history setup a' hs) puts,
        allowed,
      )
