-- ===== src/Api/Accounts.antt =====
-- What a request to unwrap adds to the counters and to the budget of its caller.
use secretstash.Base.{
  ℕ, ◌+◌, ◌≡◌, ◌≢◌, refl, [], ◌∷◌, Option, none, some, ◌||◌, Bytes, ◌==◌, if◌then◌else◌, arith,
}
use secretstash.Base.Result.{Result, ok, err}
use secretstash.Shamir.Codec.{Codec}
use secretstash.Crypto.{Ciphers, Error, parse_token, lookup_id, open_box}
use secretstash.Store.{Time, Reason, Entry, Answer, missing, found, gone, Store, take}
use secretstash.Store.Delivery.{box_of}
use secretstash.Api.Counters.{
  Label, consumed, expired, revoked, auth_fail, tamper, unknown, unregistered, Metrics,
  count_failure, record_failure, record_event,
}
use secretstash.Api.RateLimit as rate_limit
use secretstash.Api.{Api, Response, ParseDuration, failed_auth, label_of, write_gone}
use secretstash.Api.Handlers.{
  check_token, token_from, unwrap_response, unwrap_answer, unwrap_token, handle_unwrap,
}
use secretstash.Api.Http.{status_of}

-- The failures of all reasons.
abbrev pub failed : Metrics → ℕ
failed m =
    let f = m.failures in f.consumed + f.expired + f.revoked + f.auth_fail + f.tamper + f.unknown

-- The answer with this status has been counted once: as an unwrap if it is 200, and as a failure if not.
-- The caller has been charged for a 404 and a 410 only.
pub record Accounts (a b : Api) (status : ℕ) (ip : Bytes) : Type 0 where
  pub unwraps : b.metrics.unwraps ≡ a.metrics.unwraps + (if status == 200 then 1 else 0)
  pub failures : failed b.metrics ≡ failed a.metrics + (if status == 200 then 0 else 1)
  pub at : Time
  pub charged :
      b.fail_lim
      ≡ (if status == 404 || status == 410 then rate_limit.take a.fail_lim at ip else a.fail_lim)

failed-record_failure :
    (reason : Label) (m : Metrics) → failed (record_failure reason m) ≡ failed m + 1
unfolding record_failure count_failure
failed-record_failure consumed m = omega arith
failed-record_failure expired m = omega arith
failed-record_failure revoked m = omega arith
failed-record_failure auth_fail m = omega arith
failed-record_failure tamper m = omega arith
failed-record_failure unknown m = omega arith
failed-record_failure (unregistered s) m = omega arith

failed_auth-404 :
    (a : Api) (now : Time) (ip : Bytes) (reason : Label)
    → Accounts a (failed_auth a now ip reason) 404 ip
unfolding failed_auth record_failure
failed_auth-404 a now ip reason = record {
  unwraps = ground arith;
  failures = ground (arith, failed-record_failure reason a.metrics);
  at = now;
  charged = ground arith;
}

failed_auth-410 :
    (a : Api) (now : Time) (ip : Bytes) (reason : Label)
    → Accounts a (failed_auth a now ip reason) 410 ip
unfolding failed_auth record_failure
failed_auth-410 a now ip reason = record {
  unwraps = ground arith;
  failures = ground (arith, failed-record_failure reason a.metrics);
  at = now;
  charged = ground arith;
}

-- The status of an answer and the state that it leaves.
abbrev pub Accounted : Api → Api × Response → Bytes → Type 0
Accounted a r ip = Accounts a r.0 (status_of r.1) ip

write_gone-Accounted :
    (a : Api) (now : Time) (ip : Bytes) (fate : Option (Reason × Time))
    → Accounted a (write_gone a now ip fate) ip
unfolding write_gone status_of
write_gone-Accounted a now ip none = failed_auth-404 a now ip unknown
write_gone-Accounted a now ip (some (reason, at)) = failed_auth-410 a now ip (label_of reason)

-- The store has no part in the accounts.
other_secrets :
    (a : Api) (s : Store) (r : Api × Response) (ip : Bytes)
    → Accounted (record a { secrets = s }) r ip
    → Accounted a r ip
other_secrets a s r ip x = record {
  unwraps = x.unwraps;
  failures = x.failures;
  at = x.at;
  charged = x.charged;
}

module _ (codec : Codec) (ciphers : Ciphers) (parse : ParseDuration) where
  unwrap_response-Accounted :
      (a : Api) (ip : Bytes) (e : Entry) (r : Result Error Bytes)
      → Accounted a (unwrap_response codec ciphers parse a e r) ip
  unfolding unwrap_response status_of record_failure record_event
  unwrap_response-Accounted a ip e (err x) = record {
    unwraps = ground arith;
    failures = ground (arith, failed-record_failure tamper a.metrics);
    at = 0;
    charged = ground arith;
  }
  unwrap_response-Accounted a ip e (ok plaintext) = record {
    unwraps = ground arith;
    failures = ground arith;
    at = 0;
    charged = ground arith;
  }

  unwrap_answer-Accounted :
      (a : Api) (now : Time) (ip raw : Bytes) (answer : Answer Entry)
      → Accounted a (unwrap_answer codec ciphers parse a now ip raw answer) ip
  unfolding unwrap_answer
  unwrap_answer-Accounted a now ip raw missing = write_gone-Accounted a now ip none
  unwrap_answer-Accounted a now ip raw (gone reason at) =
      write_gone-Accounted a now ip (some (reason, at))
  unwrap_answer-Accounted a now ip raw (found e) =
      unwrap_response-Accounted a ip e (open_box codec ciphers raw (box_of a.secrets e))

  parsed-Accounted :
      (a : Api) (now later : Time) (ip : Bytes) (parsed : Result Error Bytes)
      → Accounted a
          (unwrap_token codec ciphers parse a now later ip
            (check_token codec ciphers parse a now ip parsed))
          ip
  unfolding unwrap_token check_token status_of
  parsed-Accounted a now later ip (err e) = failed_auth-404 a now ip auth_fail
  parsed-Accounted a now later ip (ok raw) =
      let r = take a.secrets now later (lookup_id codec ciphers raw) in
      other_secrets a r.0
        (unwrap_answer codec ciphers parse (record a { secrets = r.0 }) later ip raw r.1) ip
        (unwrap_answer-Accounted (record a { secrets = r.0 }) later ip raw r.1)

  -- Every request to unwrap that has a token is counted once: as an unwrap if it is answered with 200, and
  -- as a failure if not. It is charged to the budget of its caller, at some time, if it is answered with
  -- 404 or 410, and leaves that budget as it was if not.
  pub handle_unwrap-Accounted :
      (a : Api) (now later : Time) (ip token : Bytes)
      → token ≢ []
      → Accounted a (handle_unwrap codec ciphers parse a now later ip token) ip
  unfolding handle_unwrap token_from
  handle_unwrap-Accounted a now later ip [] h = absurd (h refl)
  handle_unwrap-Accounted a now later ip (c ∷ cs) h =
      parsed-Accounted a now later ip (parse_token codec (c ∷ cs))
