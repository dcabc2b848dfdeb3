-- ===== src/Api/Http/Calls.antt =====
-- What the requests to internal/api/api.go and the janitor of internal/store/janitor.go ask of the store,
-- as a history of its calls.
pub mod Single
use secretstash.Base.{
  ℕ, ◌+◌, ◌≡◌, refl, ap, ◌∙◌, List, [], ◌∷◌, Option, none, some, true, Bool-cases, inl, inr, Bytes,
  take, if◌then◌else◌,
}
use secretstash.Base.Int.{ℤ}
use secretstash.Base.Result.{Result, ok, err}
use secretstash.Crypto.{Error, Box, new_token, parse_token, lookup_id, seal}
use secretstash.Store.{Time, SecretId, Entry, Store, Answer, missing, found, gone}
use secretstash.Store as store
use secretstash.Store.Calls.{Call, puts, takes, peeks, revokes, step, run}
use secretstash.Api.{
  Api, Config, Response, WrapRequest, read_wrap, failed_auth, write_gone, peek_response,
  revoke_response,
}
use secretstash.Api.Handlers.{
  admit, wrap_response, store_box, issue, wrap_request, handle_wrap, check_token, token_from,
  unwrap_response, unwrap_answer, unwrap_token, handle_unwrap, peek_token, handle_peek,
  revoke_token, handle_revoke,
}
use secretstash.Api.Http.{
  Reply, Request, Moment, Setup, Endpoint, endpoints, wrap, unwrap, peek, revoke, health,
  body_limit, token_header, handle, dispatch, serve,
}
use secretstash.Api.Http.Admit.{admit-secrets, caller, serve-admitted, serve-refused}

-- The call of a handler that reads a token, if the token is well formed.
abbrev pub token_calls : (SecretId → Call) → Result Error SecretId → List Call
token_calls f (err e) = []
token_calls f (ok id) = f id ∷ []

-- The secrets after an answer of the store to an unwrap, a peek or a revocation.
write_gone-secrets :
    (a : Api) (now : Time) (ip : Bytes) (fate : Option (store.Reason × Time))
    → (write_gone a now ip fate).0.secrets ≡ a.secrets
unfolding write_gone failed_auth
write_gone-secrets a now ip none = refl
write_gone-secrets a now ip (some (reason, at)) = refl

peek_response-secrets :
    (now : Time) (ip : Bytes) (a : Api) (answer : Answer Entry)
    → (peek_response now ip a answer).0.secrets ≡ a.secrets
unfolding peek_response
peek_response-secrets now ip a missing = write_gone-secrets a now ip none
peek_response-secrets now ip a (gone reason at) = write_gone-secrets a now ip (some (reason, at))
peek_response-secrets now ip a (found e) = refl

revoke_response-secrets :
    (now : Time) (ip : Bytes) (a : Api) (answer : Answer (Unit {0}))
    → (revoke_response now ip a answer).0.secrets ≡ a.secrets
unfolding revoke_response
revoke_response-secrets now ip a missing = write_gone-secrets a now ip none
revoke_response-secrets now ip a (gone reason at) = write_gone-secrets a now ip (some (reason, at))
revoke_response-secrets now ip a (found u) = refl

wrap_response-secrets :
    (a : Api) (token : Bytes) (reads : ℤ) (e : Option Entry)
    → (wrap_response a token reads e).0.secrets ≡ a.secrets
unfolding wrap_response
wrap_response-secrets a token reads none = refl
wrap_response-secrets a token reads (some e) = refl

module _ (setup : Setup) where
  open setup use {codec, ciphers, rand, parse, json, net, mux, real_ip_header}

  -- The ID that a token names.
  abbrev pub named : Result Error Bytes → Result Error SecretId
  named (err e) = err e
  named (ok raw) = ok (lookup_id codec ciphers raw)

  -- The calls of handleWrap, handleUnwrap, handlePeek and handleRevoke.
  abbrev pub box_calls : Time → ℤ → ℤ → Result Error Box → List Call
  box_calls now ttl reads (err e) = []
  box_calls now ttl reads (ok box) = puts now box ttl reads ∷ []

  abbrev pub issue_calls : Time → ℕ → Bytes → ℤ → ℤ → Result Error (Bytes × Bytes) → List Call
  issue_calls now call secret ttl reads (err e) = []
  issue_calls now call secret ttl reads (ok (token, raw)) =
      box_calls now ttl reads (seal codec ciphers rand call raw secret)

  abbrev pub wrap_calls : Time → ℕ → Result Response (Bytes × ℤ × ℤ) → List Call
  wrap_calls now call (err r) = []
  wrap_calls now call (ok (secret, ttl, reads)) =
      issue_calls now (call + 1) secret ttl reads (new_token codec rand call)

  abbrev pub header_calls : (SecretId → Call) → Bytes → List Call
  header_calls f [] = []
  header_calls f (c ∷ cs) = token_calls f (named (parse_token codec (c ∷ cs)))

  -- The body that handleWrap decodes.
  abbrev pub body_of : Request → Config → Option WrapRequest
  body_of req cfg = json.read_request (take (body_limit cfg.max_secret_size) req.body)

  abbrev pub endpoint_calls : Moment → Request → Config → Endpoint → List Call
  endpoint_calls m req cfg wrap = wrap_calls m.now m.call (read_wrap parse cfg (body_of req cfg))
  endpoint_calls m req cfg unwrap = header_calls (takes m.now m.later) (req.header token_header)
  endpoint_calls m req cfg peek = header_calls (peeks m.now m.later) (req.header token_header)
  endpoint_calls m req cfg revoke = header_calls (revokes m.now m.later) (req.header token_header)
  endpoint_calls m req cfg health = []

  abbrev pub routed_calls : Moment → Request → Config → Result Reply Endpoint → List Call
  routed_calls m req cfg (err r) = []
  routed_calls m req cfg (ok e) = endpoint_calls m req cfg e

  -- The calls of one request; one over the rate limit makes none.
  unfoldable pub calls_of : Moment → Request → Api → List Call
  calls_of m req a =
      let (b, admitted) = admit a m.now (caller setup req) in
      if admitted then routed_calls m req b.cfg (mux endpoints req.method req.path) else []

  store_box-run :
      (a : Api) (now : Time) (token : Bytes) (ttl reads : ℤ) (box : Result Error Box)
      → (store_box codec ciphers parse a now token ttl reads box).0.secrets
        ≡ run a.secrets (box_calls now ttl reads box)
  unfolding store_box run step
  store_box-run a now token ttl reads (err e) = refl
  store_box-run a now token ttl reads (ok box) = wrap_response-secrets _ token reads _

  issue-run :
      (a : Api) (now : Time) (call : ℕ) (secret : Bytes) (ttl reads : ℤ)
      (drawn : Result Error (Bytes × Bytes))
      → (issue codec ciphers parse rand a now call secret ttl reads drawn).0.secrets
        ≡ run a.secrets (issue_calls now call secret ttl reads drawn)
  unfolding issue run
  issue-run a now call secret ttl reads (err e) = refl
  issue-run a now call secret ttl reads (ok (token, raw)) =
      store_box-run a now token ttl reads (seal codec ciphers rand call raw secret)

  wrap_request-run :
      (a : Api) (now : Time) (call : ℕ) (asked : Result Response (Bytes × ℤ × ℤ))
      → (wrap_request codec ciphers parse rand a now call asked).0.secrets
        ≡ run a.secrets (wrap_calls now call asked)
  unfolding wrap_request run
  wrap_request-run a now call (err r) = refl
  wrap_request-run a now call (ok (secret, ttl, reads)) =
      issue-run a now (call + 1) secret ttl reads (new_token codec rand call)

  unwrap_response-secrets :
      (a : Api) (e : Entry) (opened : Result Error Bytes)
      → (unwrap_response codec ciphers parse a e opened).0.secrets ≡ a.secrets
  unfolding unwrap_response
  unwrap_response-secrets a e (err x) = refl
  unwrap_response-secrets a e (ok plaintext) = refl

  unwrap_answer-secrets :
      (a : Api) (now : Time) (ip raw : Bytes) (answer : Answer Entry)
      → (unwrap_answer codec ciphers parse a now ip raw answer).0.secrets ≡ a.secrets
  unfolding unwrap_answer
  unwrap_answer-secrets a now ip raw missing = write_gone-secrets a now ip none
  unwrap_answer-secrets a now ip raw (gone reason at) =
      write_gone-secrets a now ip (some (reason, at))
  unwrap_answer-secrets a now ip raw (found e) = unwrap_response-secrets a e _

  unwrap-run :
      (a : Api) (now later : Time) (ip : Bytes) (parsed : Result Error Bytes)
      → (unwrap_token codec ciphers parse a now later ip
          (check_token codec ciphers parse a now ip parsed)).0.secrets
        ≡ run a.secrets (token_calls (takes now later) (named parsed))
  unfolding unwrap_token check_token failed_auth run step
  unwrap-run a now later ip (err e) = refl
  unwrap-run a now later ip (ok raw) = unwrap_answer-secrets _ later ip raw _

  peek-run :
      (a : Api) (now later : Time) (ip : Bytes) (parsed : Result Error Bytes)
      → (peek_token codec ciphers parse a now later ip
          (check_token codec ciphers parse a now ip parsed)).0.secrets
        ≡ run a.secrets (token_calls (peeks now later) (named parsed))
  unfolding peek_token check_token failed_auth run step
  peek-run a now later ip (err e) = refl
  peek-run a now later ip (ok raw) = peek_response-secrets later ip _ _

  revoke-run :
      (a : Api) (now later : Time) (ip : Bytes) (parsed : Result Error Bytes)
      → (revoke_token codec ciphers parse a now later ip
          (check_token codec ciphers parse a now ip parsed)).0.secrets
        ≡ run a.secrets (token_calls (revokes now later) (named parsed))
  unfolding revoke_token check_token failed_auth run step
  revoke-run a now later ip (err e) = refl
  revoke-run a now later ip (ok raw) = revoke_response-secrets later ip _ _

  handle_unwrap-run :
      (a : Api) (now later : Time) (ip token : Bytes)
      → (handle_unwrap codec ciphers parse a now later ip token).0.secrets
        ≡ run a.secrets (header_calls (takes now later) token)
  unfolding handle_unwrap token_from unwrap_token run
  handle_unwrap-run a now later ip [] = refl
  handle_unwrap-run a now later ip (c ∷ cs) = unwrap-run a now later ip (parse_token codec (c ∷ cs))

  handle_peek-run :
      (a : Api) (now later : Time) (ip token : Bytes)
      → (handle_peek codec ciphers parse a now later ip token).0.secrets
        ≡ run a.secrets (header_calls (peeks now later) token)
  unfolding handle_peek token_from peek_token run
  handle_peek-run a now later ip [] = refl
  handle_peek-run a now later ip (c ∷ cs) = peek-run a now later ip (parse_token codec (c ∷ cs))

  handle_revoke-run :
      (a : Api) (now later : Time) (ip token : Bytes)
      → (handle_revoke codec ciphers parse a now later ip token).0.secrets
        ≡ run a.secrets (header_calls (revokes now later) token)
  unfolding handle_revoke token_from revoke_token run
  handle_revoke-run a now later ip [] = refl
  handle_revoke-run a now later ip (c ∷ cs) = revoke-run a now later ip (parse_token codec (c ∷ cs))

  handle-run :
      (m : Moment) (req : Request) (ip : Bytes) (e : Endpoint) (a : Api)
      → (handle setup m req ip e a).0.secrets ≡ run a.secrets (endpoint_calls m req a.cfg e)
  unfolding handle handle_wrap run
  handle-run m req ip wrap a =
      wrap_request-run a m.now m.call (read_wrap parse a.cfg (body_of req a.cfg))
  handle-run m req ip unwrap a = handle_unwrap-run a m.now m.later ip (req.header token_header)
  handle-run m req ip peek a = handle_peek-run a m.now m.later ip (req.header token_header)
  handle-run m req ip revoke a = handle_revoke-run a m.now m.later ip (req.header token_header)
  handle-run m req ip health a = refl

  dispatch-run :
      (m : Moment) (req : Request) (ip : Bytes) (route : Result Reply Endpoint) (a : Api)
      → (dispatch setup m req ip route a).0.secrets ≡ run a.secrets (routed_calls m req a.cfg route)
  unfolding dispatch run
  dispatch-run m req ip (err r) a = refl
  dispatch-run m req ip (ok e) a = handle-run m req ip e a

  -- What a request does to the secrets is what its calls of the store do.
  pub serve-run :
      (m : Moment) (req : Request) (a : Api)
      → (serve setup m req a).0.secrets ≡ run a.secrets (calls_of m req a)
  unfolding calls_of run
  serve-run m req a =
      let b = (admit a m.now (caller setup req)).0 in
      let route = mux endpoints req.method req.path in
      elim (Bool-cases (admit a m.now (caller setup req)).1) [
        | inl h ↦
            rw (h, calls_of)
              (ap (λ r. r.0.secrets) (serve-admitted setup m req a h)
                ∙ dispatch-run m req (caller setup req) route b
                ∙ ap (λ s. run s (routed_calls m req b.cfg route))
                    (admit-secrets a m.now (caller setup req)))
        | inr h ↦ rw (h, calls_of) (serve-refused setup m req a h).1
      ]

  header_calls-parse_token :
      (f : SecretId → Call) (token raw : Bytes)
      → parse_token codec token ≡ ok raw
      → header_calls f token ≡ f (lookup_id codec ciphers raw) ∷ []
  unfolding parse_token
  header_calls-parse_token f [] raw h = cc
  header_calls-parse_token f (c ∷ cs) raw h = ap (λ r. token_calls f (named r)) h

  -- The call of an unwrap that has a token.
  pub calls_of-unwrap :
      (m : Moment) (req : Request) (a : Api) (raw : Bytes)
      → (admit a m.now (caller setup req)).1 ≡ true
      → mux endpoints req.method req.path ≡ ok unwrap
      → parse_token codec (req.header token_header) ≡ ok raw
      → calls_of m req a ≡ takes m.now m.later (lookup_id codec ciphers raw) ∷ []
  unfolding calls_of
  calls_of-unwrap m req a raw h r p =
      rw (h, calls_of)
        (ap (routed_calls m req (admit a m.now (caller setup req)).0.cfg) r
          ∙ header_calls-parse_token (takes m.now m.later) (req.header token_header) raw p)
