-- ===== src/Api.antt =====
-- internal/api/api.go and the rate limit of middleware.go: the state of the API and the handlers of
-- /v1/. A request is what the handlers read of it. The lines that the handlers log are in Api/Audit, the
-- rendering of responses as JSON in Api/Json. The copies of tokens and plaintexts that the handlers wipe live in
-- one call and are left out.
pub mod Counters
pub mod Labels
pub mod RateLimit
pub mod Remote
pub mod Handlers
pub mod RoundTrip
pub mod Json
pub mod Http
pub mod Exposition
pub mod Accounts
pub mod Audit
use secretstash.Base.{
  ℕ, ◌-◌, ◌/◌, zero, suc, ◌+◌, ◌≡◌, List, [], ◌∷◌, ◌++◌, Option, none, some, Bool, true, false, not,
  ◌||◌, Bytes, length, ◌==◌, if◌then◌else◌,
}
use secretstash.Base.Int.{ℤ, pos, negsuc, is_nonpos, ltz}
use secretstash.Base.Result.{Result, ok, err, ◌>>=◌, ◌>>◌, refuse, or_fail}
use secretstash.Shamir.Codec.{Codec}
use secretstash.Shamir.Raw.{Rand}
use secretstash.Crypto.{Ciphers, Error, Box, new_token, parse_token, lookup_id, seal, open_box}
use secretstash.Store.{
  Time, SecretId, Reason, Sealed, Entry, Store, Answer, missing, found, gone, put, peek, revoke,
}
use secretstash.Store as store
use secretstash.Store.Calls.{seal_into, sealed_of}
use secretstash.Api.Counters.{
  Event, wrap, unwrap, Label, auth_fail, tamper, unknown, Metrics, new_metrics, record_event,
  record_failure, record_peek, record_store_full, record_rate_limited,
}
use secretstash.Api.RateLimit.{RateLimiter, new_rate_limiter, allow, peek_ok}
use secretstash.Api.RateLimit as rate_limit

-- Durations are in nanoseconds.
pub record Config : Type 0 where
  pub default_ttl : ℤ
  pub max_ttl : ℤ
  pub min_ttl : ℤ
  pub max_reads : ℤ
  pub max_secret_size : ℤ
  pub share_base_url : Bytes

-- A value that is not positive is replaced.
unfoldable pub or_default : ℤ → ℕ → ℤ
or_default n d = if is_nonpos n then pos d else n

unfoldable pub with_defaults : Config → Config
unfolding or_default
with_defaults c = record c {
  default_ttl = or_default c.default_ttl 86400000000000;
  max_ttl = or_default c.max_ttl 604800000000000;
  min_ttl = or_default c.min_ttl 10000000000;
  max_reads = or_default c.max_reads 100;
  max_secret_size = or_default c.max_secret_size 65536;
}

pub record Api : Type 0 where
  pub secrets : Store
  pub cfg : Config
  pub limiter : RateLimiter
  pub fail_lim : RateLimiter
  pub started : Time
  pub metrics : Metrics

-- 10 requests a second and 20 at once; 5 failed unwraps a minute and 5 at once.
unfoldable pub new : Store → Config → Time → Api
unfolding with_defaults
new secrets cfg now = record {
  secrets = secrets;
  cfg = with_defaults cfg;
  limiter = new_rate_limiter 100000000 20;
  fail_lim = new_rate_limiter 12000000000 5;
  started = now;
  metrics = new_metrics;
}

pub record WrapRequest : Type 0 where
  pub secret : Bytes
  pub ttl : Bytes
  pub reads : ℤ

-- The texts of the error messages; those of a GoneError name its time.
pub data Message : Type 0 where
  invalid_json empty_secret oversized ttl_format ttl_range reads_range : Message
  token_generation encryption decryption full missing_header no_secret too_many : Message
  gone_since : Reason → Time → Message

pub data Code : Type 0 where
  bad_request too_large internal store_full not_found rate_limited : Code
  gone_code : Reason → Code

pub record ApiError : Type 0 where
  pub code : Code
  pub message : Message
  pub consumed_at : Option Time

-- The status and the body; `done` is 204 with no body, the others but `failure` are 200.
pub data Response : Type 0 where
  wrapped : Bytes → Time → ℤ → Option Bytes → Response
  unwrapped : Bytes → ℤ → Time → Response
  peeked : Time → ℤ → Response
  done : Response
  healthy : Bytes → ℕ → Response
  failure : ℕ → ApiError → Response

abbrev pub write_error : ℕ → Code → Message → Response
write_error status code message =
    failure status (record { code = code; message = message; consumed_at = none })

-- time.ParseDuration
abbrev pub ParseDuration : Type 0
ParseDuration = Bytes → Option ℤ

abbrev pub bad : Message → Response
bad = write_error 400 bad_request

-- handleHealth: the version, and the whole seconds since the start.
unfoldable pub handle_health : Bytes → Api → Time → Response
handle_health version a now = healthy version ((now - a.started) / 1000000000)

-- The part of handleWrap that reads the TTL.
unfoldable pub read_ttl : ParseDuration → Config → Bytes → Result Response ℤ
read_ttl parse cfg [] = ok cfg.default_ttl
read_ttl parse cfg (c ∷ cs) = do
  d ← or_fail (parse (c ∷ cs)) (bad ttl_format)
  refuse (ltz d cfg.min_ttl || ltz cfg.max_ttl d) (bad ttl_range)
  ok d

-- The part that reads the number of reads; 0 stands for an absent field.
unfoldable pub read_reads : Config → ℤ → Result Response ℤ
read_reads cfg (pos zero) = ok (pos 1)
read_reads cfg reads = do
  refuse (ltz reads (pos 1) || ltz cfg.max_reads reads) (bad reads_range)
  ok reads

-- handleWrap up to the token: the secret, the TTL and the reads. `none` is a body that is no JSON.
unfoldable pub read_wrap :
    ParseDuration → Config → Option WrapRequest → Result Response (Bytes × ℤ × ℤ)
unfolding read_ttl read_reads
read_wrap parse cfg body = do
  req ← or_fail body (bad invalid_json)
  refuse (length req.secret == 0) (bad empty_secret)
  refuse (ltz cfg.max_secret_size (pos (length req.secret))) (write_error 413 too_large oversized)
  ttl ← read_ttl parse cfg req.ttl
  reads ← read_reads cfg req.reads
  ok (req.secret, ttl, reads)

abbrev pub count : (Metrics → Metrics) → Api → Api
count f a = record a { metrics = f a.metrics }

-- failedAuth: it counts the failure and charges the caller's address.
unfoldable pub failed_auth : Api → Time → Bytes → Label → Api
failed_auth a now ip reason = record a {
  metrics = record_failure reason a.metrics;
  fail_lim = rate_limit.take a.fail_lim now ip;
}

unfoldable pub label_of : Reason → Label
label_of Reason.consumed = Label.consumed
label_of Reason.expired = Label.expired
label_of Reason.revoked = Label.revoked

abbrev pub gone_error : Reason → Time → ApiError
gone_error reason at = record {
  code = gone_code reason;
  message = gone_since reason at;
  consumed_at = elim reason [ Reason.consumed ↦ some at | _ ↦ none ];
}

abbrev pub not_found_response : Response
not_found_response = write_error 404 not_found no_secret

-- writeGone for the error of a GoneError, and for a miss.
unfoldable pub write_gone : Api → Time → Bytes → Option (Reason × Time) → Api × Response
unfolding failed_auth label_of
write_gone a now ip (some (reason, at)) =
    (failed_auth a now ip (label_of reason), failure 410 (gone_error reason at))
write_gone a now ip none = (failed_auth a now ip unknown, not_found_response)

-- handlePeek behind the store.
unfoldable pub peek_response : Time → Bytes → Api → Answer Entry → Api × Response
unfolding write_gone
peek_response now ip a missing = write_gone a now ip none
peek_response now ip a (gone reason at) = write_gone a now ip (some (reason, at))
peek_response now ip a (found e) = (count record_peek a, peeked e.expires_at e.reads_remaining)

-- handleRevoke behind the store.
unfoldable pub revoke_response : Time → Bytes → Api → Answer (Unit {0}) → Api × Response
unfolding write_gone
revoke_response now ip a missing = write_gone a now ip none
revoke_response now ip a (gone reason at) = write_gone a now ip (some (reason, at))
revoke_response now ip a (found u) = (count (record_event Event.revoke) a, done)
