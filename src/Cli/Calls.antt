-- ===== src/Cli/Calls.antt =====
-- What a command gets from the server that its request reaches.
use secretstash.Base.{
  Option-cases, inl, inr, ℕ, ◌≤◌, ◌≡◌, refl, ap, ◌∙◌, [], ◌++◌, Option, none, some, Bool, true,
  false, ite, Bytes, length, bytes_dec, if◌then◌else◌, take_le, ◌==◌, ==_iff,
}
use secretstash.Base.Int.{ℤ}
use secretstash.Base.Result.{Result, ok}
use secretstash.Base.Text.{trim_slashes}
use secretstash.Api.{Api}
use secretstash.Api.Http.{Setup, Request, Reply, Moment, token_header, serve}
use secretstash.Cli.{
  Network, Client, ClientFlags, Outcome, call, send, expect, warning, read_answer, body_max,
  exit_ok,
}
use secretstash.Cli.Commands.{remaining, print_secret}

-- A request as it arrives at the server.
abbrev pub arriving : Bytes → Bytes → Bytes → Bytes → Option Bytes → Request
arriving remote method path token body = record {
  method = method;
  path = path;
  header = λ name. ite (bytes_dec name token_header) token [];
  remote_addr = remote;
  body = elim body [ none ↦ [] | some b ↦ b ];
}

abbrev pub answer : Api × Reply → Api × Result Bytes (ℕ × Bytes)
answer (a, r) = (a, ok (r.status, r.body))

-- The network brings the requests for this address to the server, as they are, and its answers back.
pub record Reaches (setup : Setup) (lib : Client) (network : Network Api) (addr remote : Bytes)
    (m : Moment) : Type 0 where
  pub same_json : lib.json ≡ setup.json
  pub valid : (method path : Bytes) → lib.new_request method (trim_slashes addr ++ path) ≡ ok tt
  pub arrives :
      (a : Api) (method path token : Bytes) (body : Option Bytes) (skip_verify : Bool)
      → network a (record {
        method = method;
        url = trim_slashes addr ++ path;
        skip_verify = skip_verify;
        token = token;
        body = body;
      })
        ≡ answer (serve setup m (arriving remote method path token body) a)

send-answered :
    {W : Type 0} (lib : Client) (network : Network W) (cf : ClientFlags) (method path token : Bytes)
    (body : Option Bytes) (w w' : W) (r : Result Bytes (ℕ × Bytes))
    → lib.new_request method (trim_slashes cf.addr ++ path) ≡ ok tt
    → network w (record {
      method = method;
      url = trim_slashes cf.addr ++ path;
      skip_verify = cf.skip_verify;
      token = token;
      body = body;
    })
      ≡ (w', r)
    → send lib network cf method path token body w
      ≡ record { world = w'; printed = warning cf.skip_verify; answer = read_answer r }
unfolding send
send-answered lib network cf method path token body w w' r v a = rw (v, send) (rw a refl)

-- The body of a call, if it has one, as JSON.
abbrev pub encoded : Option Bytes → Option (Result Bytes Bytes)
encoded none = none
encoded (some b) = some (ok b)

-- A call whose request reaches the server, and whose answer is not over a megabyte.
pub call-Reaches :
    (setup : Setup) (lib : Client) (network : Network Api) (cf : ClientFlags) (remote : Bytes)
    (m : Moment) (method path token : Bytes) (body : Option Bytes) (a a' : Api) (reply : Reply)
    → Reaches setup lib network cf.addr remote m
    → serve setup m (arriving remote method path token body) a ≡ (a', reply)
    → length reply.body ≤ body_max
    → call lib network cf method path token (encoded body) a ≡ record {
      world = a';
      printed = warning cf.skip_verify;
      answer = ok (reply.status, reply.body);
    }
unfolding call
call-Reaches setup lib network cf remote m method path token body a a' reply reach served len =
    elim (Option-cases body) [
      | inl e ↦ rw e (answered none (rw e at served))
      | inr (b, e) ↦ rw e (answered (some b) (rw e at served))
    ]
  where
    answered :
        (o : Option Bytes)
        → serve setup m (arriving remote method path token o) a ≡ (a', reply)
        → send lib network cf method path token o a ≡ record {
          world = a';
          printed = warning cf.skip_verify;
          answer = ok (reply.status, reply.body);
        }
    answered o s =
        send-answered lib network cf method path token o a a' (ok (reply.status, reply.body))
          (reach.valid method path)
          (reach.arrives a method path token o cf.skip_verify ∙ ap answer s)
        ∙ ap
            (λ b. record {
              world = a';
              printed = warning cf.skip_verify;
              answer = ok (reply.status, b);
            })
            (take_le body_max reply.body len)

pub expect-answered :
    {W : Type 0} (lib : Client) (wanted : ℕ) (next : W → Bytes → Bytes → Outcome W) (w : W)
    (printed body : Bytes)
    → expect lib wanted next (record { world = w; printed = printed; answer = ok (wanted, body) })
      ≡ next w printed body
unfolding expect
expect-answered {W = W} lib wanted next w printed body =
    if_eq (wanted == wanted) _ _ ((==_iff wanted wanted).1 refl)
  where
    if_eq : (b : Bool) (x y : Outcome W) → b ≡ true → (if b then x else y) ≡ x
    if_eq b x y h = rw h refl

pub print_secret-ok :
    {W : Type 0} (lib : Client) (network : Network W) (cf : ClientFlags) (w : W)
    (printed body secret : Bytes) (n : ℤ)
    → cf.json_out ≡ false
    → lib.json.read_unwrapped body ≡ ok (secret, n)
    → print_secret lib network cf w printed body ≡ record {
      world = w;
      stdout = secret;
      stderr = printed ++ remaining lib network n;
      code = exit_ok;
    }
unfolding print_secret
print_secret-ok lib network cf w printed body secret n j r = rw j (rw (r, print_secret) refl)
