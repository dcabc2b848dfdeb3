-- ===== src/Cli/Sharing.antt =====
-- From wrap with --shares and --threshold to combine.
use secretstash.Base.{
  ℕ, ◌≤◌, ◌≡◌, ◌≢◌, ap, ◌∙◌, List, [], ◌∷◌, Option, some, true, false, Bytes, length, take_le,
  arith,
}
use secretstash.Base.Int.{ℤ, pos}
use secretstash.Base.Result.{ok}
use secretstash.Base.Text.{ascii}
use secretstash.Shamir.Codec.{Codec}
use secretstash.Shamir.Raw.{Rand}
use secretstash.Shamir.Share.{split}
use secretstash.Shamir.Share.Splits.{Fills}
use secretstash.Shamir.Share.Total.{Draws, split_total}
use secretstash.Crypto.{parse_token}
use secretstash.Store.{Time}
use secretstash.Api.{Api, WrapRequest, Response, wrapped, read_wrap}
use secretstash.Api.Handlers.{admit, handle_wrap}
use secretstash.Api.RoundTrip.{handle_wrap-Wraps}
use secretstash.Api.Http.{
  Setup, Request, Reply, Moment, wrap, endpoints, content_type, write_json, no_store, body_limit,
  serve,
}
use secretstash.Api.Http.Admit.{caller, serve-wrap}
use secretstash.Cli.{
  Flag, Parsed, given, Stdin, Network, Client, ClientFlags, client_flags, Outcome, Called, call,
  expect, warning, body_max, exit_ok,
}
use secretstash.Cli.Wrap.{wrap_secret, shares_text, print_wrapped, wrap_flags}
use secretstash.Cli.Calls.{arriving, Reaches, call-Reaches, expect-answered}
use secretstash.Cli.Parts.{wrap_secret-ok, print_wrapped-ok, wrap_flags-ok}

-- What wrap asks of the server.
abbrev pub asked_of : Parsed → Bytes → WrapRequest
asked_of p secret = record {
  secret = secret;
  ttl = given (p.text Flag.ttl) [];
  reads = given (p.number Flag.reads) (pos 1);
}

-- What wrap leaves in split mode: the server has the secret, and the shares of its token are printed.
pub record Shared (lib : Client) (codec : Codec) (rand : Rand) (n k : ℕ) (token : Bytes) (reads : ℤ)
    (a : Api) (o : Outcome Api) : Type 0 where
  pub raw : Bytes
  pub parts : List Bytes
  pub expires : Time
  pub parsed : parse_token codec token ≡ ok raw
  pub split_ok : split codec rand raw n k ≡ ok parts
  pub world : o.world ≡ a
  pub stdout : o.stdout ≡ shares_text lib parts (pos n) (pos k) reads expires
  pub code : o.code ≡ exit_ok

module _ (setup : Setup) (lib : Client) (network : Network Api) (remote : Bytes) (m : Moment)
    (rand' : Rand) (rand_error : Bytes) where
  open setup use {codec, ciphers, rand, parse, json, mux}

  abbrev pub wrap_request_of : Bytes → Request
  wrap_request_of body = arriving remote (ascii "POST") (ascii "/v1/wrap") [] (some body)

  -- The state behind the rate limit.
  abbrev pub admitted : Api → Api
  admitted a = (admit a m.now (caller setup (wrap_request_of []))).0

  serve-wrapped :
      (a a' : Api) (body token : Bytes) (request : Option WrapRequest) (expiry : Time) (left : ℤ)
      (url : Option Bytes)
      → mux endpoints (ascii "POST") (ascii "/v1/wrap") ≡ ok wrap
      → (admit a m.now (caller setup (wrap_request_of []))).1 ≡ true
      → json.read_request body ≡ request
      → length body ≤ body_limit (admitted a).cfg.max_secret_size
      → handle_wrap codec ciphers parse rand (admitted a) m.now m.call request
        ≡ (a', wrapped token expiry left url)
      → serve setup m (wrap_request_of body) a ≡ (
        a',
        no_store (record {
          status = 200;
          headers = content_type ∷ [];
          body = json.write_response (wrapped token expiry left url);
        }),
      )
  unfolding write_json
  serve-wrapped a a' body token request expiry left url route h read len w =
      serve-wrap setup m (wrap_request_of body) a h route
      ∙ ap
          (λ t.
            handled (
              handle_wrap codec ciphers parse rand (admitted a) m.now m.call (json.read_request t)))
          (take_le (body_limit (admitted a).cfg.max_secret_size) body len)
      ∙ ap (λ r. handled (handle_wrap codec ciphers parse rand (admitted a) m.now m.call r)) read
      ∙ ap handled w
    where
      handled : Api × Response → Api × Reply
      handled (b, r) = (b, no_store (write_json json r))

  pub wrap_flags-Shared :
      (stdin : Stdin) (p : Parsed) (secret : Bytes) (n k : ℕ) (a a' : Api) (token : Bytes)
      (expiry : Time) (left : ℤ) (url : Option Bytes) (ttl reads : ℤ)
      → Fills rand
      → Draws rand'
      → p.args ≡ secret ∷ []
      → p.number Flag.shares ≡ some (pos n)
      → p.number Flag.threshold ≡ some (pos k)
      → (client_flags lib p).json_out ≡ false
      → secret ≢ []
      → 2 ≤ k
      → k ≤ n
      → n ≤ 255
      → Reaches setup lib network (client_flags lib p).addr remote m
      → mux endpoints (ascii "POST") (ascii "/v1/wrap") ≡ ok wrap
      → (admit a m.now (caller setup (wrap_request_of []))).1 ≡ true
      → json.utf8 secret ≡ true
      → json.utf8 (given (p.text Flag.ttl) []) ≡ true
      → json.utf8 token ≡ true
      → ((body : Bytes)
          → json.write_request secret
              (given (p.number Flag.reads) (pos 1))
              (given (p.text Flag.ttl) [])
            ≡ ok body
          → length body ≤ body_limit (admitted a).cfg.max_secret_size)
      → length (json.write_response (wrapped token expiry left url)) ≤ body_max
      → read_wrap parse (admitted a).cfg (some (asked_of p secret)) ≡ ok (secret, ttl, reads)
      → handle_wrap codec ciphers parse rand (admitted a) m.now m.call (some (asked_of p secret))
        ≡ (a', wrapped token expiry left url)
      → Shared lib codec rand' n k token left a'
          (wrap_flags lib codec rand' rand_error network stdin p a)
  unfolding no_store
  wrap_flags-Shared stdin p secret n k a a' token expiry left url ttl reads fills draws args sn sk j
        some_secret low high few reach route h us ut uk fits short accepted w =
      let cf = client_flags lib p in
      let asked = given (p.number Flag.reads) (pos 1) in
      let (body, written, back) =
        json.read_request-write_request secret (given (p.text Flag.ttl) []) asked us ut in
      let served =
        serve-wrapped a a' body token _ expiry left url route h back (fits body written) w in
      let reply_body = json.write_response (wrapped token expiry left url) in
      let called =
        call-Reaches setup lib network cf remote m (ascii "POST") (ascii "/v1/wrap") [] (some body)
          a a' _ reach served short in
      let (r, read, same_token, same_reads) =
        json.read_wrapped-write_response token expiry left url uk in
      let wraps =
        handle_wrap-Wraps codec ciphers parse rand (admitted a) m.now m.call _ secret ttl reads a'
          token expiry left url fills accepted w in
      let (parts, s, count) =
        split_total codec rand' wraps.raw n k draws (filled wraps.raw (omega (arith, wraps.size)))
          low high few in
      let marshalled : lib.json.write_request secret asked (given (p.text Flag.ttl) []) ≡ ok body =
        ap (λ i. i.write_request secret asked (given (p.text Flag.ttl) [])) reach.same_json
        ∙ written in
      let all =
        ap
          (λ x.
            print_answer cf n k
              (call lib network cf (ascii "POST") (ascii "/v1/wrap") [] (some x) a))
          marshalled
        ∙ ap (print_answer cf n k) called
        ∙ expect-answered lib 200 (print_wrapped lib codec rand' rand_error cf (pos n) (pos k)) a'
            (warning cf.skip_verify) reply_body
        ∙ print_wrapped-ok lib codec rand' rand_error cf n k a' (warning cf.skip_verify) reply_body
            wraps.raw r parts j (omega arith)
            (ap (λ i. i.read_wrapped reply_body) reach.same_json ∙ read)
            (ap (parse_token codec) same_token ∙ wraps.live.parsed) s in
      let o : wrap_flags lib codec rand' rand_error network stdin p a ≡ record {
        world = a';
        stdout = shares_text lib parts (pos n) (pos k) r.reads r.expires_at;
        stderr = warning cf.skip_verify;
        code = exit_ok;
      } =
        wrap_flags-ok lib codec rand' rand_error network stdin p a secret (pos n) (pos k)
          (ap (λ x. given x (pos 0)) sn) (ap (λ x. given x (pos 0)) sk)
          (ap (λ x. wrap_secret (pos n) (pos k) x stdin) args
            ∙ wrap_secret-ok n k secret stdin low high few some_secret)
        ∙ all in
      record {
        raw = wraps.raw;
        parts = parts;
        expires = r.expires_at;
        parsed = wraps.live.parsed;
        split_ok = s;
        world = ap (λ q. q.world) o;
        stdout =
            ap (λ q. q.stdout) o
            ∙ ap (λ t. shares_text lib parts (pos n) (pos k) t r.expires_at) same_reads;
        code = ap (λ q. q.code) o;
      }
    where
      print_answer : ClientFlags → ℕ → ℕ → Called Api → Outcome Api
      print_answer cf n k =
          expect lib 200 (print_wrapped lib codec rand' rand_error cf (pos n) (pos k))

      filled : (b : Bytes) → 1 ≤ length b → b ≢ []
      filled [] q = absurd (omega arith)
      filled (c ∷ b) q = λ e. cc
