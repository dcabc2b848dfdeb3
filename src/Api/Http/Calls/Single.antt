-- ===== src/Api/Http/Calls/Single.antt =====
-- A request to internal/api/api.go makes one call of the store at most.
use secretstash.Base.{ℕ, ◌+◌, ◌≤◌, ◌≡◌, arith, [], ◌∷◌, Bool-cases, inl, inr, Bytes, length}
use secretstash.Base.Int.{ℤ}
use secretstash.Base.Result.{Result, ok, err}
use secretstash.Crypto.{Error, Box, new_token, parse_token, seal}
use secretstash.Store.{Time, SecretId}
use secretstash.Store.Calls.{Call, takes, peeks, revokes, run}
use secretstash.Api.{Api, Config, Response, read_wrap}
use secretstash.Api.Handlers.{admit}
use secretstash.Api.Http.{
  Reply, Request, Moment, Setup, Endpoint, wrap, unwrap, peek, revoke, health, token_header, serve,
}
use secretstash.Api.Http.Admit.{caller}
use secretstash.Api.Http.Calls.{
  token_calls, named, box_calls, issue_calls, wrap_calls, header_calls, body_of, routed_calls,
  calls_of, serve-run,
}

module _ (setup : Setup) where
  open setup use {codec, ciphers, rand, parse}

  length-header_calls :
      (f : SecretId → Call) (token : Bytes) → length (header_calls setup f token) ≤ 1
  length-header_calls f [] = omega arith
  length-header_calls f (c ∷ cs) = one (parse_token codec (c ∷ cs))
    where
      one : (parsed : Result Error Bytes) → length (token_calls f (named setup parsed)) ≤ 1
      one (err e) = omega arith
      one (ok raw) = omega arith

  length-wrap_calls :
      (now : Time) (call : ℕ) (asked : Result Response (Bytes × ℤ × ℤ))
      → length (wrap_calls setup now call asked) ≤ 1
  length-wrap_calls now call (err r) = omega arith
  length-wrap_calls now call (ok (secret, ttl, reads)) = drawn (new_token codec rand call)
    where
      boxed : (box : Result Error Box) → length (box_calls setup now ttl reads box) ≤ 1
      boxed (err e) = omega arith
      boxed (ok box) = omega arith

      drawn :
          (t : Result Error (Bytes × Bytes))
          → length (issue_calls setup now (call + 1) secret ttl reads t) ≤ 1
      drawn (err e) = omega arith
      drawn (ok (token, raw)) = boxed (seal codec ciphers rand (call + 1) raw secret)

  length-routed_calls :
      (m : Moment) (req : Request) (cfg : Config) (route : Result Reply Endpoint)
      → length (routed_calls setup m req cfg route) ≤ 1
  length-routed_calls m req cfg (err r) = omega arith
  length-routed_calls m req cfg (ok wrap) =
      length-wrap_calls m.now m.call (read_wrap parse cfg (body_of setup req cfg))
  length-routed_calls m req cfg (ok unwrap) =
      length-header_calls (takes m.now m.later) (req.header token_header)
  length-routed_calls m req cfg (ok peek) =
      length-header_calls (peeks m.now m.later) (req.header token_header)
  length-routed_calls m req cfg (ok revoke) =
      length-header_calls (revokes m.now m.later) (req.header token_header)
  length-routed_calls m req cfg (ok health) = omega arith

  -- A request makes one call of the store at most, and what it does to the secrets is that call.
  pub serve-run_call :
      (m : Moment) (req : Request) (a : Api)
      → (length (calls_of setup m req a) ≤ 1)
        × ((serve setup m req a).0.secrets ≡ run a.secrets (calls_of setup m req a))
  unfolding calls_of
  serve-run_call m req a = (
    elim (Bool-cases (admit a m.now (caller setup req)).1) [
      | inl h ↦ rw (h, calls_of) (length-routed_calls m req _ _)
      | inr h ↦ rw (h, calls_of) (omega arith)
    ],
    serve-run setup m req a,
  )
