-- ===== src/Api/Audit.antt =====
-- The audit log of internal/api/api.go: the line that each handler writes. The log has the remote address and
-- the beginning of the lookup ID of a secret.
pub mod Logged
use secretstash.Base.{
  ℕ, ◌≤◌, ◌≡◌, ◌≢◌, refl, List, [], ◌∷◌, Option, none, some, Bytes, length, take, ltb,
  if◌then◌else◌, arith,
}
use secretstash.Base.Int.{ℤ}
use secretstash.Base.Result.{Result, ok, err}
use secretstash.Shamir.Codec.{Codec}
use secretstash.Crypto.{Ciphers, Error, parse_token, lookup_id, open_box}
use secretstash.Store.{Time, SecretId, Entry, Answer, missing, found, gone, Store, peek, revoke}
use secretstash.Store as store
use secretstash.Store.Delivery.{box_of}
use secretstash.Api.Counters.{
  Event, Label, consumed, auth_fail, tamper, unknown, Metrics, record_event, record_failure,
}
use secretstash.Api.{
  Api, ParseDuration, Response, failed_auth, label_of, write_gone, revoke_response,
}
use secretstash.Api.Handlers.{
  check_token, token_from, unwrap_response, unwrap_answer, unwrap_token, handle_unwrap,
  revoke_token, handle_revoke,
}

-- slog.LevelInfo and slog.LevelWarn
pub data Level : Type 0 where
  info warn : Level

-- The event of a line; a failure is "unwrap_failed" with its reason.
pub data Kind : Type 0 where
  audited : Event → Kind
  unwrap_failed : Label → Kind

-- The reads and the TTL of a wrap, and the reads that an unwrap leaves.
pub data Detail : Type 0 where
  bare : Detail
  reads_ttl : ℤ → ℤ → Detail
  reads_remaining : ℤ → Detail

pub record Line : Type 0 where
  pub level : Level
  pub kind : Kind
  pub id_prefix : Bytes
  pub remote : Bytes
  pub detail : Detail

-- idPrefix
unfoldable pub id_prefix : Bytes → Bytes
id_prefix id = if ltb (length id) 8 then id else take 8 id

-- audit
unfoldable pub audit : Event → SecretId → Bytes → Detail → Line
unfolding id_prefix
audit event id remote detail = record {
  level = info;
  kind = audited event;
  id_prefix = id_prefix id;
  remote = remote;
  detail = detail;
}

-- The level of failedAuth.
unfoldable pub level_of : Label → Level
level_of reason = elim reason [ consumed ↦ warn | _ ↦ info ]

-- The line of failedAuth.
unfoldable pub failed_line : Label → SecretId → Bytes → Line
unfolding id_prefix level_of
failed_line reason id remote = record {
  level = level_of reason;
  kind = unwrap_failed reason;
  id_prefix = id_prefix id;
  remote = remote;
  detail = bare;
}

-- The line of handleUnwrap on a ciphertext that does not open.
unfoldable pub tamper_line : SecretId → Bytes → Line
unfolding id_prefix
tamper_line id remote = record {
  level = warn;
  kind = unwrap_failed tamper;
  id_prefix = id_prefix id;
  remote = remote;
  detail = bare;
}

-- The line of handleUnwrap behind Open.
unfoldable pub opened_line : SecretId → Bytes → Entry → Result Error Bytes → Line
unfolding audit tamper_line
opened_line id remote e (err x) = tamper_line id remote
opened_line id remote e (ok plaintext) =
    audit Event.unwrap id remote (reads_remaining e.reads_remaining)

-- The line of handleRevoke behind the store.
unfoldable pub revoked_line : SecretId → Bytes → Answer (Unit {0}) → Line
unfolding audit failed_line
revoked_line id remote missing = failed_line unknown id remote
revoked_line id remote (gone reason at) = failed_line (label_of reason) id remote
revoked_line id remote (found u) = audit Event.revoke id remote bare

-- The line of handlePeek behind the store; a peek that finds the secret is not logged.
unfoldable pub peeked_line : SecretId → Bytes → Answer Entry → Option Line
unfolding failed_line
peeked_line id remote missing = some (failed_line unknown id remote)
peeked_line id remote (gone reason at) = some (failed_line (label_of reason) id remote)
peeked_line id remote (found e) = none

-- The line of handleWrap behind Put.
unfoldable pub wrapped_line : SecretId → Bytes → ℤ → ℤ → Option Entry → Option Line
unfolding audit
wrapped_line id remote reads ttl none = none
wrapped_line id remote reads ttl (some e) = some (audit Event.wrap id remote (reads_ttl reads ttl))

module _ (codec : Codec) (ciphers : Ciphers) where
  -- The line of handleUnwrap behind Take.
  unfoldable pub taken_line : Store → SecretId → Bytes → Bytes → Answer Entry → Line
  unfolding failed_line opened_line
  taken_line s id raw remote missing = failed_line unknown id remote
  taken_line s id raw remote (gone reason at) = failed_line (label_of reason) id remote
  taken_line s id raw remote (found e) =
      opened_line id remote e (open_box codec ciphers raw (box_of s e))

  -- The line of a handler behind ParseToken.
  unfoldable pub token_line :
      Bytes → (Bytes → SecretId → Option Line) → Result Error Bytes → Option Line
  unfolding failed_line
  token_line remote next (err e) = some (failed_line auth_fail [] remote)
  token_line remote next (ok raw) = next raw (lookup_id codec ciphers raw)

  -- The line of a handler that reads a token; a request with no token is not logged.
  unfoldable pub header_line : Bytes → (Bytes → SecretId → Option Line) → Bytes → Option Line
  unfolding token_line
  header_line remote next [] = none
  header_line remote next (c ∷ cs) = token_line remote next (parse_token codec (c ∷ cs))

  -- The lines of handleUnwrap, handlePeek and handleRevoke.
  unfoldable pub unwrap_line : Store → Time → Time → Bytes → Bytes → Option Line
  unfolding header_line taken_line
  unwrap_line s now later remote = header_line remote (λ raw id.
      let (s', answer) = store.take s now later id in some (taken_line s' id raw remote answer))

  unfoldable pub peek_line : Store → Time → Time → Bytes → Bytes → Option Line
  unfolding header_line peeked_line
  peek_line s now later remote =
      header_line remote (λ raw id. peeked_line id remote (peek s now later id).1)

  unfoldable pub revoke_line : Store → Time → Time → Bytes → Bytes → Option Line
  unfolding header_line revoked_line
  revoke_line s now later remote =
      header_line remote (λ raw id. some (revoked_line id remote (revoke s now later id).1))
