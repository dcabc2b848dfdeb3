-- ===== src/Api/Handlers.antt =====
-- The handlers of internal/api/api.go that read a token or make one, and the rate limit in front.
use secretstash.Base.{ℕ, ◌+◌, [], ◌∷◌, ◌++◌, Option, none, some, Bool, false, Bytes, if◌then◌else◌}
use secretstash.Base.Int.{ℤ}
use secretstash.Base.Result.{Result, ok, err}
use secretstash.Shamir.Codec.{Codec}
use secretstash.Shamir.Raw.{Rand}
use secretstash.Crypto.{Ciphers, Box, Error, new_token, parse_token, lookup_id, seal, open_box}
use secretstash.Store.{Time, SecretId, Entry, Answer, missing, found, gone, put, take, peek, revoke}
use secretstash.Store.Delivery.{box_of}
use secretstash.Store.Calls.{seal_into, sealed_of}
use secretstash.Api.Counters.{
  Event, auth_fail, tamper, record_event, record_failure, record_store_full, record_rate_limited,
}
use secretstash.Api.RateLimit.{allow, peek_ok}
use secretstash.Api.{
  Api, WrapRequest, Response, wrapped, unwrapped, write_error, bad, internal, store_full,
  token_generation, encryption, decryption, full, missing_header, not_found_response, ParseDuration,
  read_wrap, count, failed_auth, write_gone, peek_response, revoke_response,
}

-- resp.ShareURL: "/s#" and the token behind the base URL.
unfoldable pub share_url : Bytes → Bytes → Option Bytes
share_url [] token = none
share_url (c ∷ cs) token = some ((c ∷ cs) ++ b'/' ∷ b's' ∷ b'#' ∷ token)

-- handleWrap behind Put.
unfoldable pub wrap_response : Api → Bytes → ℤ → Option Entry → Api × Response
unfolding share_url
wrap_response a token reads none = (count record_store_full a, write_error 507 store_full full)
wrap_response a token reads (some e) = (
  count (record_event Event.wrap) a,
  wrapped token e.expires_at reads (share_url a.cfg.share_base_url token),
)

module _ (codec : Codec) (ciphers : Ciphers) (parse : ParseDuration) where
  -- handleWrap from Seal on.
  unfoldable pub store_box : Api → Time → Bytes → ℤ → ℤ → Result Error Box → Api × Response
  unfolding wrap_response
  store_box a now token ttl reads (err e) = (a, write_error 500 internal encryption)
  store_box a now token ttl reads (ok box) =
      let (s, entry) = put (seal_into a.secrets box) now (sealed_of a.secrets box) ttl reads in
      wrap_response (record a { secrets = s }) token reads entry

  -- handleWrap from the token on; `call` is the number of the next call of rand.Read.
  unfoldable pub issue :
      Rand → Api → Time → ℕ → Bytes → ℤ → ℤ → Result Error (Bytes × Bytes) → Api × Response
  unfolding store_box
  issue rand a now call secret ttl reads (err e) = (a, write_error 500 internal token_generation)
  issue rand a now call secret ttl reads (ok (token, raw)) =
      store_box a now token ttl reads (seal codec ciphers rand call raw secret)

  unfoldable pub wrap_request :
      Rand → Api → Time → ℕ → Result Response (Bytes × ℤ × ℤ) → Api × Response
  unfolding issue
  wrap_request rand a now call (err response) = (a, response)
  wrap_request rand a now call (ok (secret, ttl, reads)) =
      issue rand a now (call + 1) secret ttl reads (new_token codec rand call)

  unfoldable pub handle_wrap : Rand → Api → Time → ℕ → Option WrapRequest → Api × Response
  unfolding wrap_request
  handle_wrap rand a now call body = wrap_request rand a now call (read_wrap parse a.cfg body)

  -- What tokenFrom answers: a response, or the raw token and its lookup ID.
  unfoldable pub check_token :
      Api → Time → Bytes → Result Error Bytes → Result (Api × Response) (Bytes × SecretId)
  check_token a now ip (err e) = err (failed_auth a now ip auth_fail, not_found_response)
  check_token a now ip (ok raw) = ok (raw, lookup_id codec ciphers raw)

  -- tokenFrom, on the header X-Stash-Token; an absent header is empty.
  unfoldable pub token_from :
      Api → Time → Bytes → Bytes → Result (Api × Response) (Bytes × SecretId)
  unfolding check_token
  token_from a now ip [] = err (a, bad missing_header)
  token_from a now ip (c ∷ cs) = check_token a now ip (parse_token codec (c ∷ cs))

  -- handleUnwrap behind Open.
  unfoldable pub unwrap_response : Api → Entry → Result Error Bytes → Api × Response
  unwrap_response a e (err error) =
      (count (record_failure tamper) a, write_error 500 internal decryption)
  unwrap_response a e (ok plaintext) =
      (count (record_event Event.unwrap) a, unwrapped plaintext e.reads_remaining e.created_at)

  -- handleUnwrap behind Take. Open runs outside the lock of the store; here no other call comes
  -- between them.
  unfoldable pub unwrap_answer : Api → Time → Bytes → Bytes → Answer Entry → Api × Response
  unfolding unwrap_response
  unwrap_answer a now ip raw missing = write_gone a now ip none
  unwrap_answer a now ip raw (gone reason at) = write_gone a now ip (some (reason, at))
  unwrap_answer a now ip raw (found e) =
      unwrap_response a e (open_box codec ciphers raw (box_of a.secrets e))

  unfoldable pub unwrap_token :
      Api → Time → Time → Bytes → Result (Api × Response) (Bytes × SecretId) → Api × Response
  unfolding unwrap_answer
  unwrap_token a now later ip (err refused) = refused
  unwrap_token a now later ip (ok (raw, id)) =
      let (s, answer) = take a.secrets now later id in
      unwrap_answer (record a { secrets = s }) later ip raw answer

  unfoldable pub handle_unwrap : Api → Time → Time → Bytes → Bytes → Api × Response
  unfolding token_from unwrap_token
  handle_unwrap a now later ip token = unwrap_token a now later ip (token_from a now ip token)

  unfoldable pub peek_token :
      Api → Time → Time → Bytes → Result (Api × Response) (Bytes × SecretId) → Api × Response
  peek_token a now later ip (err refused) = refused
  peek_token a now later ip (ok (raw, id)) =
      let (s, answer) = peek a.secrets now later id in
      peek_response later ip (record a { secrets = s }) answer

  unfoldable pub handle_peek : Api → Time → Time → Bytes → Bytes → Api × Response
  unfolding token_from peek_token
  handle_peek a now later ip token = peek_token a now later ip (token_from a now ip token)

  unfoldable pub revoke_token :
      Api → Time → Time → Bytes → Result (Api × Response) (Bytes × SecretId) → Api × Response
  revoke_token a now later ip (err refused) = refused
  revoke_token a now later ip (ok (raw, id)) =
      let (s, answer) = revoke a.secrets now later id in
      revoke_response later ip (record a { secrets = s }) answer

  unfoldable pub handle_revoke : Api → Time → Time → Bytes → Bytes → Api × Response
  unfolding token_from revoke_token
  handle_revoke a now later ip token = revoke_token a now later ip (token_from a now ip token)

-- The rate limit of middleware.go: the second budget is not read once the first is used up.
unfoldable pub admit : Api → Time → Bytes → Api × Bool
admit a now ip =
    let (l, allowed) = allow a.limiter now ip in
    let (f, budget) = peek_ok a.fail_lim now ip in
    if allowed
    then (record a { limiter = l; fail_lim = f }, budget)
    else (record a { limiter = l }, false)

unfoldable pub rate_limit {ℓ} : {R : Type ℓ} → (Api → Api × R) → R → Api → Time → Bytes → Api × R
unfolding admit
rate_limit next refusal a now ip =
    let (a', admitted) = admit a now ip in
    let answer = next a' in if admitted then answer else (count record_rate_limited a', refusal)
