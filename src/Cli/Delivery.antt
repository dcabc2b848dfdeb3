-- ===== src/Cli/Delivery.antt =====
-- From the command line to the store and back: what the commands print when the server that they reach
-- is that of Api.Http.
use secretstash.Base.{
  ℕ, ◌<◌, ◌≤◌, ◌≡◌, refl, sym, ap, subst, ◌∙◌, List, [], ◌∷◌, ◌++◌, map, Option, none, Bool, true,
  false, if_pos, Bytes, length, get_or, bytes_dec, All, arith, ltb, ◌==◌, length-map,
}
use secretstash.Base.Int.{ℤ, pred}
use secretstash.Base.Result.{ok, ok_inj}
use secretstash.Base.Text.{ascii}
use secretstash.Shamir.Codec.{IsBytes}
use secretstash.Shamir.Raw.{Rand}
use secretstash.Shamir.Share.{split, combine}
use secretstash.Shamir.Share.Splits.{Fills, Splits-split}
use secretstash.Shamir.Share.Combine.{Separate}
use secretstash.Shamir.Share.RoundTrip.{combine-split}
use secretstash.Crypto.{encode_token, parse_token, token_prefix, token_bytes}
use secretstash.Store.{Time, Entry}
use secretstash.Api.{Api, WrapRequest, wrapped, unwrapped, read_wrap}
use secretstash.Api.Handlers.{admit, handle_wrap, handle_unwrap}
use secretstash.Api.RoundTrip.{Live, handle_unwrap-Live, handle_wrap-Wraps}
use secretstash.Api.Http.{
  Setup, Request, Moment, unwrap, endpoints, content_type, token_header, write_json, no_store,
  serve,
}
use secretstash.Api.Http.Admit.{caller, admit-secrets, serve-unwrap}
use secretstash.Cli.{Network, Client, ClientFlags, expect, warning, body_max, exit_ok}
use secretstash.Cli.Commands.{print_secret, unwrap_with_token, use_token, use_raw, combine_all}
use secretstash.Cli.Calls.{arriving, Reaches, call-Reaches, expect-answered, print_secret-ok}

module _ (setup : Setup) (lib : Client) (network : Network Api) (cf : ClientFlags) (remote : Bytes)
    (m : Moment) where
  open setup use {codec, ciphers, parse, json, mux}

  abbrev pub unwrap_request : Bytes → Request
  unwrap_request token = arriving remote (ascii "POST") (ascii "/v1/unwrap") token none

  -- The reply of the server to a token that is live.
  abbrev pub secret_body : Bytes → ℤ → Time → Bytes
  secret_body secret reads created = json.write_response (unwrapped secret reads created)

  serve-Live :
      (a : Api) (token raw secret : Bytes) (e : Entry)
      → mux endpoints (ascii "POST") (ascii "/v1/unwrap") ≡ ok unwrap
      → (admit a m.now (caller setup (unwrap_request token))).1 ≡ true
      → Live codec ciphers parse a.secrets token raw secret e
      → m.now < e.expires_at
      → (serve setup m (unwrap_request token) a).1
        ≡ no_store (record {
          status = 200;
          headers = content_type ∷ [];
          body = secret_body secret (pred e.reads_remaining) e.created_at;
        })
  unfolding write_json
  serve-Live a token raw secret e r h v x =
      serve-unwrap setup m (unwrap_request token) a h r
      ∙ ap
          (λ t.
            no_store (write_json json (handle_unwrap codec ciphers parse b m.now m.later ip t).1))
          (if_pos (bytes_dec token_header token_header) refl token [])
      ∙ ap (λ t. no_store (write_json json t))
          (handle_unwrap-Live codec ciphers parse b m.now m.later ip token raw secret e
            (subst (λ s. Live codec ciphers parse s token raw secret e)
              (sym (admit-secrets a m.now ip)) v)
            x)
    where
      ip : Bytes
      ip = caller setup (unwrap_request token)

      b : Api
      b = (admit a m.now ip).0

  -- unwrap prints the secret behind a live token, and exits with 0.
  pub unwrap_with_token-Live :
      (a : Api) (token raw secret : Bytes) (e : Entry)
      → Reaches setup lib network cf.addr remote m
      → cf.json_out ≡ false
      → mux endpoints (ascii "POST") (ascii "/v1/unwrap") ≡ ok unwrap
      → (admit a m.now (caller setup (unwrap_request token))).1 ≡ true
      → Live codec ciphers parse a.secrets token raw secret e
      → m.now < e.expires_at
      → json.utf8 secret ≡ true
      → length (secret_body secret (pred e.reads_remaining) e.created_at) ≤ body_max
      → ((unwrap_with_token lib network cf token a).stdout ≡ secret)
        × ((unwrap_with_token lib network cf token a).code ≡ exit_ok)
  unfolding unwrap_with_token no_store
  unwrap_with_token-Live a token raw secret e reach j r h v x u len =
      let body = secret_body secret (pred e.reads_remaining) e.created_at in
      let a' = (serve setup m (unwrap_request token) a).0 in
      let called =
        call-Reaches setup lib network cf remote m (ascii "POST") (ascii "/v1/unwrap") token none a
          a' (no_store (record { status = 200; headers = content_type ∷ []; body = body })) reach
          (ap (λ q. (a', q)) (serve-Live a token raw secret e r h v x)) len in
      let all =
        ap (expect lib 200 (print_secret lib network cf)) called
        ∙ expect-answered lib 200 (print_secret lib network cf) a' (warning cf.skip_verify) body
        ∙ print_secret-ok lib network cf a' (warning cf.skip_verify) body secret
            (pred e.reads_remaining) j
            (ap (λ i. i.read_unwrapped body) reach.same_json
              ∙ json.read_unwrapped-write_response secret (pred e.reads_remaining) e.created_at
                  u) in
      (ap (λ o. o.stdout) all, ap (λ o. o.code) all)

  combine_all-ok :
      (print_token : Bool) (shares : List Bytes) (raw token : Bytes) (w : Api)
      → 2 ≤ length shares
      → combine codec shares ≡ ok raw
      → encode_token codec raw ≡ ok token
      → combine_all lib network codec cf print_token shares w
        ≡ use_token lib network codec cf print_token token w
  unfolding combine_all use_raw
  combine_all-ok print_token shares raw token w n c e =
      rw
        (
          (let few : ltb (length shares) 2 ≡ false = ground (arith, n) in few),
          c,
          combine_all,
          e,
          use_raw,
        )
        refl

  encode_token-ok :
      (raw : Bytes)
      → length raw ≡ token_bytes
      → encode_token codec raw ≡ ok (token_prefix ++ codec.encode raw)
  unfolding encode_token
  encode_token-ok raw n = rw (let e : (length raw == 32) ≡ true = ground (arith, n) in e) refl

  -- If the server accepts a secret and answers with a token, and the token is split into n shares, then
  -- combine prints the secret and exits with 0 on any k of these shares or more, in any order, if its
  -- request reaches the server, passes the rate limit and comes before the expiry, nothing else has been
  -- asked of the server between, the secret is UTF-8, and the answer is not over a megabyte.
  pub combine_all-handle_wrap :
      (rand rand' : Rand) (a : Api) (now : Time) (number : ℕ) (request : Option WrapRequest)
      (secret : Bytes) (ttl reads : ℤ) (a' : Api) (token raw : Bytes) (expiry : Time) (left : ℤ)
      (url : Option Bytes) (n k : ℕ) (shares : List Bytes) (picks : List ℕ)
      → Fills rand
      → Fills rand'
      → read_wrap parse a.cfg request ≡ ok (secret, ttl, reads)
      → handle_wrap codec ciphers parse rand a now number request
        ≡ (a', wrapped token expiry left url)
      → parse_token codec token ≡ ok raw
      → split codec rand' raw n k ≡ ok shares
      → All (λ i. i < n) picks
      → Separate picks
      → k ≤ length picks
      → Reaches setup lib network cf.addr remote m
      → cf.json_out ≡ false
      → mux endpoints (ascii "POST") (ascii "/v1/unwrap") ≡ ok unwrap
      → (admit a' m.now (caller setup (unwrap_request token))).1 ≡ true
      → m.now < expiry
      → json.utf8 secret ≡ true
      → length (secret_body secret (pred reads) now) ≤ body_max
      → let o = combine_all lib network codec cf false (map (λ i. get_or shares i []) picks) a' in
        (o.stdout ≡ secret) × (o.code ≡ exit_ok)
  unfolding use_token
  combine_all-handle_wrap rand rand' a now number request secret ttl reads a' token raw expiry left
        url n k shares picks fills fills' r w p s below separate enough reach j route h x u len =
      let wraps =
        handle_wrap-Wraps codec ciphers parse rand a now number request secret ttl reads a' token
          expiry left url fills r w in
      let same = ok_inj (sym wraps.live.parsed ∙ p) in
      let low = (Splits-split codec rand' raw n k s).low in
      let combined =
        combine-split codec rand' raw n k shares picks fills' (subst IsBytes same wraps.bytes) s
          below separate enough in
      let printed =
        unwrap_with_token-Live a' token wraps.raw secret wraps.entry reach j route h wraps.live
          (omega (arith, wraps.expires, x)) u
          (subst (λ t. length (secret_body secret (pred t) wraps.entry.created_at) ≤ body_max)
            (sym wraps.reads_remaining)
            (subst (λ t. length (secret_body secret (pred reads) t) ≤ body_max) (sym wraps.created)
              len)) in
      let all =
        combine_all-ok false (map (λ i. get_or shares i []) picks) raw token a'
          (omega (arith, length-map (λ i. get_or shares i []) picks)) combined
          (encode_token-ok raw (ap length (sym same) ∙ wraps.size)
            ∙ ap ok (ap (λ b. token_prefix ++ codec.encode b) (sym same) ∙ sym wraps.text)) in
      (ap (λ o. o.stdout) all ∙ printed.0, ap (λ o. o.code) all ∙ printed.1)
