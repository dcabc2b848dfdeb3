-- ===== src/Cli/Asks.antt =====
-- What unwrap, peek and revoke do with their arguments, in internal/cli/client.go.
use secretstash.Base.{
  ℕ, ◌≡◌, ◌≢◌, refl, ap, ◌⊎◌, inl, inr, List, [], ◌∷◌, ◌++◌, none, Bytes, length, arith,
}
use secretstash.Base.Result.{Result, ok, err}
use secretstash.Base.Text.{ascii, trim_slashes}
use secretstash.Cli.{
  Parsed, Network, Client, ClientFlags, client_flags, Outgoing, Outcome, fail, read_answer, warning,
  send, call, expect, exit_error, exit_usage,
}
use secretstash.Cli.Commands.{
  with_flags, with_token, print_secret, unwrap_with_token, cmd_unwrap, print_peek, peek_token,
  cmd_peek, print_revoked, revoke_token, cmd_revoke,
}
use secretstash.Cli.Ends.{Reports, IsLocal, expect-Reports}
use secretstash.Cli.Codes.{print_secret-IsLocal, print_peek-IsLocal, print_revoked-IsLocal}

-- The commands that read a token, their names, and their requests.
pub data TokenCommand : Type 0 where
  unwrap peek revoke : TokenCommand

abbrev pub name_of : TokenCommand → Bytes
name_of unwrap = ascii "unwrap"
name_of peek = ascii "peek"
name_of revoke = ascii "revoke"

abbrev pub method_of : TokenCommand → Bytes
method_of unwrap = ascii "POST"
method_of peek = ascii "GET"
method_of revoke = ascii "DELETE"

abbrev pub path_of : TokenCommand → Bytes
path_of unwrap = ascii "/v1/unwrap"
path_of peek = ascii "/v1/peek"
path_of revoke = ascii "/v1/secret"

abbrev pub request_of : TokenCommand → ClientFlags → Bytes → Outgoing
request_of c cf token = record {
  method = method_of c;
  url = trim_slashes cf.addr ++ path_of c;
  skip_verify = cf.skip_verify;
  token = token;
  body = none;
}

-- The end of a command on its arguments: it refuses them and sends nothing, or it sends its request with
-- the one token that it is given.
pub data Asks {W : Type 0} (lib : Client) (network : Network W) (c : TokenCommand)
    (args : List Bytes) (w : W) (o : Outcome W) : Type 0 where
  bad_flags :
      (text : Bytes)
      → lib.parse_flags (name_of c) args ≡ err text
      → o.world ≡ w
      → o.code ≡ exit_usage
      → Asks lib network c args w o
  bad_count :
      (p : Parsed)
      → lib.parse_flags (name_of c) args ≡ ok p
      → length p.args ≢ 1
      → o.world ≡ w
      → o.code ≡ exit_usage
      → Asks lib network c args w o
  bad_url :
      (p : Parsed) (token text : Bytes)
      → lib.parse_flags (name_of c) args ≡ ok p
      → p.args ≡ token ∷ []
      → lib.new_request (method_of c) (request_of c (client_flags lib p) token).url ≡ err text
      → o.world ≡ w
      → o.code ≡ exit_error
      → Asks lib network c args w o
  asks :
      (p : Parsed) (token : Bytes)
      → lib.parse_flags (name_of c) args ≡ ok p
      → p.args ≡ token ∷ []
      → o.world ≡ (network w (request_of c (client_flags lib p) token)).0
      → Reports (network w (request_of c (client_flags lib p) token)).1 o.code
      → Asks lib network c args w o

module _ {W : Type 0} (lib : Client) (network : Network W) where
  module _ (c : TokenCommand) (usage : Bytes) (wanted : ℕ)
      (next : ClientFlags → W → Bytes → Bytes → Outcome W)
      (success : (wanted ≡ 200) ⊎ (wanted ≡ 204))
      (local : (cf : ClientFlags) (w : W) (p b : Bytes) → IsLocal w (next cf w p b)) where
    abbrev on_token : Parsed → Bytes → W → Outcome W
    on_token p token w =
        let cf = client_flags lib p in
        expect lib wanted (next cf) (call lib network cf (method_of c) (path_of c) token none w)

    on_token-Asks :
        (args : List Bytes) (p : Parsed) (token : Bytes) (w : W)
        → lib.parse_flags (name_of c) args ≡ ok p
        → p.args ≡ token ∷ []
        → Asks lib network c args w (on_token p token w)
    unfolding call send expect
    on_token-Asks args p token w h one = requested (lib.new_request (method_of c) out.url) refl
      where
        out : Outgoing
        out = request_of c (client_flags lib p) token

        requested :
            (r : Result Bytes (Unit {0}))
            → lib.new_request (method_of c) out.url ≡ r
            → Asks lib network c args w (
                expect lib wanted (next (client_flags lib p)) (elim r [
                  | err e ↦ record { world = w; printed = []; answer = err e }
                  | ok u ↦ record {
                    world = (network w out).0;
                    printed = warning out.skip_verify;
                    answer = read_answer (network w out).1;
                  }
                ]))
        requested (err e) k = Asks.bad_url p token e h one k refl refl
        requested (ok u) k =
            let (world, reports) =
              expect-Reports lib wanted (next (client_flags lib p)) success
                (local (client_flags lib p)) (network w out).0 (warning out.skip_verify)
                (network w out).1 in
            Asks.asks p token h one world reports

    with_flags-Asks :
        (args : List Bytes) (w : W)
        → Asks lib network c args w (
            with_flags lib network
              (name_of c)
              (λ p. with_token lib network usage (on_token p) p.args)
              args
              w)
    unfolding with_flags with_token
    with_flags-Asks args w = parsed (lib.parse_flags (name_of c) args) refl
      where
        counted :
            (p : Parsed) (l : List Bytes)
            → lib.parse_flags (name_of c) args ≡ ok p
            → p.args ≡ l
            → Asks lib network c args w (with_token lib network usage (on_token p) l w)
        counted p [] h k = Asks.bad_count p h (λ n. omega (arith, n, ap length k)) refl refl
        counted p (token ∷ []) h k = on_token-Asks args p token w h k
        counted p (s ∷ t ∷ rest) h k =
            Asks.bad_count p h (λ n. omega (arith, n, ap length k)) refl refl

        parsed :
            (r : Result Bytes Parsed)
            → lib.parse_flags (name_of c) args ≡ r
            → Asks lib network c args w (elim r [
              | err text ↦ fail w text exit_usage
              | ok p ↦ with_token lib network usage (on_token p) p.args w
            ])
        parsed (err text) h = Asks.bad_flags text h refl refl
        parsed (ok p) h = counted p p.args h refl

  pub cmd_unwrap-Asks :
      (args : List Bytes) (w : W) → Asks lib network unwrap args w (cmd_unwrap lib network args w)
  unfolding cmd_unwrap unwrap_with_token
  cmd_unwrap-Asks =
      with_flags-Asks unwrap (ascii "usage: secretstash unwrap <token>") 200
        (print_secret lib network) (inl refl) (print_secret-IsLocal lib network)

  pub cmd_peek-Asks :
      (args : List Bytes) (w : W) → Asks lib network peek args w (cmd_peek lib network args w)
  unfolding cmd_peek peek_token
  cmd_peek-Asks =
      with_flags-Asks peek (ascii "usage: secretstash peek <token>") 200 (print_peek lib network)
        (inl refl) (print_peek-IsLocal lib network)

  pub cmd_revoke-Asks :
      (args : List Bytes) (w : W) → Asks lib network revoke args w (cmd_revoke lib network args w)
  unfolding cmd_revoke revoke_token
  cmd_revoke-Asks =
      with_flags-Asks revoke (ascii "usage: secretstash revoke <token>") 204
        (λ cf. print_revoked lib network) (inr refl) (λ cf. print_revoked-IsLocal lib network)
