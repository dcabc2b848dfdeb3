-- ===== src/Cli/RoundTrip.antt =====
-- wrap with --shares and --threshold on one command line, and combine on another.
use secretstash.Base.{
  ℕ, ◌<◌, ◌≤◌, ◌≡◌, ◌≢◌, sym, subst, List, [], ◌∷◌, map, Option, some, true, false, Bytes, length,
  get_or, All,
}
use secretstash.Base.Int.{ℤ, pos, pred}
use secretstash.Base.Result.{ok}
use secretstash.Base.Text.{ascii}
use secretstash.Shamir.Raw.{Rand}
use secretstash.Shamir.Share.Combine.{Separate}
use secretstash.Shamir.Share.Splits.{Fills}
use secretstash.Shamir.Share.Total.{Draws}
use secretstash.Store.{Time}
use secretstash.Api.{Api, wrapped, read_wrap}
use secretstash.Api.Handlers.{admit, handle_wrap}
use secretstash.Api.Http.{Setup, Moment, wrap, unwrap, endpoints, body_limit}
use secretstash.Api.Http.Admit.{caller}
use secretstash.Cli.{
  Flag, Parsed, given, Stdin, Network, Client, ClientFlags, client_flags, body_max, exit_ok,
}
use secretstash.Cli.Commands.{combine_all}
use secretstash.Cli.Wrap.{wrap_flags}
use secretstash.Cli.Calls.{Reaches}
use secretstash.Cli.Delivery.{unwrap_request, secret_body, combine_all-handle_wrap}
use secretstash.Cli.Sharing.{Shared, asked_of, wrap_request_of, admitted, wrap_flags-Shared}

-- The command lines: the flags of wrap with a quorum and the secret as its argument.
pub record WrapsInParts (lib : Client) (p : Parsed) (secret : Bytes) (n k : ℕ) : Type 0 where
  pub args : p.args ≡ secret ∷ []
  pub shares : p.number Flag.shares ≡ some (pos n)
  pub threshold : p.number Flag.threshold ≡ some (pos k)
  pub plain : (client_flags lib p).json_out ≡ false
  pub some_secret : secret ≢ []
  pub low : 2 ≤ k
  pub high : k ≤ n
  pub few : n ≤ 255

module _ (setup : Setup) (lib : Client) (network network' : Network Api) (remote remote' : Bytes)
    (m m' : Moment) (rand' : Rand) (rand_error : Bytes) where
  open setup use {codec, ciphers, rand, parse, json, mux}

  -- wrap with --shares n and --threshold k, of a secret that the server accepts, prints n shares and exits
  -- with 0. Then combine prints the secret and exits with 0 on any k of these shares or more, in any order.
  -- Both requests reach the server with nothing between them, find their routes and pass the rate limit,
  -- the second before the expiry; --json is not set, the texts are UTF-8, the request fits the limit on
  -- bodies and the answers a megabyte, and the random sources fill slices with bytes, the client's always.
  pub combine_all-wrap_flags :
      (stdin : Stdin) (p : Parsed) (cf : ClientFlags) (secret : Bytes) (n k : ℕ) (picks : List ℕ)
      (a a' : Api) (token : Bytes) (expiry : Time) (left : ℤ) (url : Option Bytes) (ttl reads : ℤ)
      → Fills rand
      → Fills rand'
      → Draws rand'
      → WrapsInParts lib p secret n k
      → cf.json_out ≡ false
      → Reaches setup lib network (client_flags lib p).addr remote m
      → Reaches setup lib network' cf.addr remote' m'
      → mux endpoints (ascii "POST") (ascii "/v1/wrap") ≡ ok wrap
      → mux endpoints (ascii "POST") (ascii "/v1/unwrap") ≡ ok unwrap
      → (admit a m.now
          (caller setup (wrap_request_of setup lib network remote m rand' rand_error []))).1
        ≡ true
      → (admit a' m'.now (caller setup (unwrap_request setup lib network' cf remote' m' token))).1
        ≡ true
      → json.utf8 secret ≡ true
      → json.utf8 (given (p.text Flag.ttl) []) ≡ true
      → json.utf8 token ≡ true
      → ((body : Bytes)
          → json.write_request secret
              (given (p.number Flag.reads) (pos 1))
              (given (p.text Flag.ttl) [])
            ≡ ok body
          → length body
            ≤ body_limit
                (admitted setup lib network remote m rand' rand_error a).cfg.max_secret_size)
      → length (json.write_response (wrapped token expiry left url)) ≤ body_max
      → length (secret_body setup lib network' cf remote' m' secret (pred reads) m.now) ≤ body_max
      → read_wrap parse
          (admitted setup lib network remote m rand' rand_error a).cfg
          (some (asked_of p secret))
        ≡ ok (secret, ttl, reads)
      → handle_wrap codec ciphers parse rand
          (admitted setup lib network remote m rand' rand_error a)
          m.now
          m.call
          (some (asked_of p secret))
        ≡ (a', wrapped token expiry left url)
      → m'.now < expiry
      → All (λ i. i < n) picks
      → Separate picks
      → k ≤ length picks
      → let o = wrap_flags lib codec rand' rand_error network stdin p a in
        (s : Shared lib codec rand' n k token left a' o) × (let c =
            combine_all lib network' codec cf false
              (map (λ i. get_or s.parts i []) picks)
              o.world in
          (c.stdout ≡ secret) × (c.code ≡ exit_ok))
  combine_all-wrap_flags stdin p cf secret n k picks a a' token expiry left url ttl reads fills
        fills' draws parted j reach reach' route route' h h' us ut uk fits short short' accepted w x
        below separate enough =
      let s =
        wrap_flags-Shared setup lib network remote m rand' rand_error stdin p secret n k a a' token
          expiry left url ttl reads fills draws parted.args parted.shares parted.threshold
          parted.plain parted.some_secret parted.low parted.high parted.few reach route h us ut uk
          fits short accepted w in
      (
        s,
        subst
            (λ b.
              let c =
                combine_all lib network' codec cf false (map (λ i. get_or s.parts i []) picks) b in
              (c.stdout ≡ secret) × (c.code ≡ exit_ok))
            (sym s.world)
            (combine_all-handle_wrap setup lib network' cf remote' m' rand rand'
              (admitted setup lib network remote m rand' rand_error a) m.now m.call
              (some (asked_of p secret)) secret ttl reads a' token s.raw expiry left url n k s.parts
              picks fills fills' accepted w s.parsed s.split_ok below separate enough reach' j
              route' h' x us short'),
      )
