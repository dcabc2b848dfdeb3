-- ===== src/Api/Http/Delivered.antt =====
-- How often the handlers of internal/api/api.go hand a secret out.
use secretstash.Base.{
  ℕ, ◌+◌, ◌≤◌, ◌≡◌, refl, sym, ap, ◌∙◌, List, [], ◌∷◌, ◌++◌, Bool, true, false, Bool-cases, inl,
  inr, Bytes, bytes_dec, ◌==◌, if◌then◌else◌, arith,
}
use secretstash.Base.Result.{Result, ok, err}
use secretstash.Crypto.{Error, parse_token, lookup_id}
use secretstash.Store.{Time, SecretId, Entry, Store, Answer, missing, found, gone}
use secretstash.Store as store
use secretstash.Store.Calls.{Call, puts, takes, peeks, revokes, purges, step, run}
use secretstash.Store.Reads.{reads, reads_if, reads_of}
use secretstash.Api.{Api, Response, wrapped, unwrapped, peeked, done, healthy, failure, write_gone}
use secretstash.Api.Handlers.{admit, unwrap_answer, unwrap_token, handle_unwrap}
use secretstash.Api.RoundTrip.{token_from-parse_token}
use secretstash.Api.Http.{
  Reply, Request, Moment, Setup, Endpoint, endpoints, unwrap, token_header, status_of, write_json,
  no_store, refusal, serve,
}
use secretstash.Api.Http.Admit.{admit-secrets, caller, serve-refused, serve-unwrap}
use secretstash.Api.Http.Calls.{named, calls_of, calls_of-unwrap}
use secretstash.Api.Http.Traffic.{Happening, requests, ticks, happen, history, happen-run, calls}

reads_of-append :
    (id : SecretId) (s : Store) (cs ds : List Call)
    → reads_of id s (cs ++ ds) ≡ reads_of id s cs + reads_of id (run s cs) ds
unfolding reads_of run
reads_of-append id s [] ds = omega arith
reads_of-append id s (puts now f ttl n ∷ cs) ds = reads_of-append id _ cs ds
reads_of-append id s (takes now later j ∷ cs) ds =
    omega (arith, reads_of-append id (step s (takes now later j)) cs ds)
reads_of-append id s (peeks now later j ∷ cs) ds = reads_of-append id _ cs ds
reads_of-append id s (revokes now later j ∷ cs) ds = reads_of-append id _ cs ds
reads_of-append id s (purges now clock ∷ cs) ds = reads_of-append id _ cs ds

abbrev is_named {κ} : {P : Type κ} → Dec P → Bool
is_named (yes p) = true
is_named (no p) = false

abbrev names : SecretId → Result Error SecretId → Bool
names id (err e) = false
names id (ok j) = is_named (bytes_dec j id)

abbrev is_unwrap : Result Reply Endpoint → Bool
is_unwrap (err r) = false
is_unwrap (ok e) = elim e [ unwrap ↦ true | _ ↦ false ]

is_named-inv {κ} : {P : Type κ} (d : Dec P) → is_named d ≡ true → P
is_named-inv (yes p) h = p
is_named-inv (no p) h = cc

both : (b c : Bool) → (if b then c else false) ≡ true → (b ≡ true) × (c ≡ true)
both true c h = (refl, h)
both false c h = cc

-- 1 for a 200
abbrev delivers : ℕ → ℕ
delivers status = if status == 200 then 1 else 0

delivers_one : (status : ℕ) → delivers status ≤ 1
delivers_one status = ground arith

module _ (setup : Setup) where
  open setup use {codec, ciphers, parse, json, mux}

  -- Whether a request is an unwrap with a token of the secret with this ID.
  unfoldable pub asks_for : SecretId → Request → Bool
  asks_for id req =
      if is_unwrap (mux endpoints req.method req.path)
      then names id (named setup (parse_token codec (req.header token_header)))
      else false

  -- The unwraps of the secret with this ID that are answered with 200.
  unfoldable pub delivered : SecretId → Api → List Happening → ℕ
  unfolding asks_for happen
  delivered id a [] = 0
  delivered id a (requests m req ∷ hs) =
      (if asks_for id req then delivers (serve setup m req a).1.status else 0)
      + delivered id (happen setup a (requests m req)) hs
  delivered id a (ticks now clock ∷ hs) = delivered id (happen setup a (ticks now clock)) hs

  -- What a request asks for, if it is one for this secret.
  record Asks (id : SecretId) (req : Request) : Type 0 where
    route : mux endpoints req.method req.path ≡ ok unwrap
    raw : Bytes
    parsed : parse_token codec (req.header token_header) ≡ ok raw
    same : lookup_id codec ciphers raw ≡ id

  names-inv :
      (id : SecretId) (parsed : Result Error Bytes)
      → names id (named setup parsed) ≡ true
      → (raw : Bytes) × (parsed ≡ ok raw) × (lookup_id codec ciphers raw ≡ id)
  names-inv id (err e) h = cc
  names-inv id (ok raw) h = (raw, refl, is_named-inv (bytes_dec (lookup_id codec ciphers raw) id) h)

  is_unwrap-inv : (r : Result Reply Endpoint) → is_unwrap r ≡ true → r ≡ ok unwrap
  is_unwrap-inv (err r) h = cc
  is_unwrap-inv (ok unwrap) h = refl
  is_unwrap-inv (ok Endpoint.wrap) h = cc
  is_unwrap-inv (ok Endpoint.peek) h = cc
  is_unwrap-inv (ok Endpoint.revoke) h = cc
  is_unwrap-inv (ok Endpoint.health) h = cc

  asks_for-Asks : (id : SecretId) (req : Request) → asks_for id req ≡ true → Asks id req
  unfolding asks_for
  asks_for-Asks id req h =
      let (u, n) =
        both (is_unwrap (mux endpoints req.method req.path))
          (names id (named setup (parse_token codec (req.header token_header)))) h in
      let (raw, parsed, same) = names-inv id (parse_token codec (req.header token_header)) n in
      record {
        route = is_unwrap-inv (mux endpoints req.method req.path) u;
        raw = raw;
        parsed = parsed;
        same = same;
      }

  status-write_json : (r : Response) → (no_store (write_json json r)).status ≡ status_of r
  unfolding write_json status_of no_store
  status-write_json (wrapped token expiry n url) = refl
  status-write_json (unwrapped secret n created) = refl
  status-write_json (peeked expiry n) = refl
  status-write_json done = refl
  status-write_json (healthy version uptime) = refl
  status-write_json (failure status e) = refl

  -- An answer with 200 hands out what the store answered with.
  unwrap_answer-delivers :
      (a : Api) (now : Time) (ip raw : Bytes) (answer : Answer Entry)
      → delivers (status_of (unwrap_answer codec ciphers parse a now ip raw answer).1)
        ≤ reads answer
  unfolding unwrap_answer write_gone status_of
  unwrap_answer-delivers a now ip raw missing = omega arith
  unwrap_answer-delivers a now ip raw (gone reason at) = omega arith
  unwrap_answer-delivers a now ip raw (found e) = delivers_one _

  reads_of-takes :
      (id j : SecretId) (s : Store) (now later : Time)
      → j ≡ id
      → reads_of id s (takes now later j ∷ []) ≡ reads (store.take s now later j).1
  unfolding reads_of
  reads_of-takes id j s now later p =
      elim (bytes_dec j id)
        as (λ d. reads_if d (store.take s now later j).1 + 0 ≡ reads (store.take s now later j).1) [
          | yes q ↦ omega arith
          | no q ↦ absurd (q p)
        ]

  admitted-delivers :
      (id : SecretId) (m : Moment) (req : Request) (a : Api)
      → Asks id req
      → (admit a m.now (caller setup req)).1 ≡ true
      → delivers (serve setup m req a).1.status ≤ reads_of id a.secrets (calls_of setup m req a)
  unfolding handle_unwrap unwrap_token
  admitted-delivers id m req a asks h =
      let b = (admit a m.now (caller setup req)).0 in
      let ip = caller setup req in
      let token = req.header token_header in
      let j = lookup_id codec ciphers asks.raw in
      let r = store.take b.secrets m.now m.later j in
      let answer : Response =
        (unwrap_answer codec ciphers parse (record b { secrets = r.0 }) m.later ip asks.raw
          r.1).1 in
      let replied : (serve setup m req a).1.status ≡ status_of answer =
        ap (λ (q : Reply). q.status) (serve-unwrap setup m req a h asks.route)
        ∙ status-write_json _
        ∙ ap (λ t. status_of (unwrap_token codec ciphers parse b m.now m.later ip t).1)
            (token_from-parse_token codec ciphers parse b m.now ip token asks.raw asks.parsed) in
      let read : reads r.1 ≡ reads_of id a.secrets (calls_of setup m req a) =
        ap (λ s. reads (store.take s m.now m.later j).1) (admit-secrets a m.now ip)
        ∙ sym (reads_of-takes id j a.secrets m.now m.later asks.same)
        ∙ ap (reads_of id a.secrets)
            (sym (calls_of-unwrap setup m req a asks.raw h asks.route asks.parsed)) in
      omega (
        arith,
        ap delivers replied,
        read,
        unwrap_answer-delivers (record b { secrets = r.0 }) m.later ip asks.raw r.1,
      )

  -- A request hands out no more than its history reads.
  pub request-le-reads_of :
      (id : SecretId) (m : Moment) (req : Request) (a : Api)
      → (if asks_for id req then delivers (serve setup m req a).1.status else 0)
        ≤ reads_of id a.secrets (calls_of setup m req a)
  unfolding write_json refusal no_store
  request-le-reads_of id m req a = elim (Bool-cases (asks_for id req)) [
    | inr n ↦ rw n (omega arith)
    | inl y ↦ rw y (elim (Bool-cases (admit a m.now (caller setup req)).1) [
      | inl h ↦ admitted-delivers id m req a (asks_for-Asks id req y) h
      | inr h ↦ rw (serve-refused setup m req a h).0 (omega arith)
    ])
  ]

  pub delivered-le-reads_of :
      (id : SecretId) (a : Api) (hs : List Happening)
      → delivered id a hs ≤ reads_of id a.secrets (history setup a hs)
  unfolding delivered history calls happen
  delivered-le-reads_of id a [] = omega arith
  delivered-le-reads_of id a (requests m req ∷ hs) =
      let cs = calls_of setup m req a in
      let ds = history setup (happen setup a (requests m req)) hs in
      omega (
        arith,
        request-le-reads_of id m req a,
        delivered-le-reads_of id (happen setup a (requests m req)) hs,
        reads_of-append id a.secrets cs ds,
        ap (λ s. reads_of id s ds) (happen-run setup a (requests m req)),
      )
  delivered-le-reads_of id a (ticks now clock ∷ hs) =
      let ds = history setup (happen setup a (ticks now clock)) hs in
      omega (
        arith,
        delivered-le-reads_of id (happen setup a (ticks now clock)) hs,
        reads_of-append id a.secrets (purges now clock ∷ []) ds,
        ap (λ s. reads_of id s ds) (happen-run setup a (ticks now clock)),
      )
