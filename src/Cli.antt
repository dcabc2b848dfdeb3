-- ===== src/Cli.antt =====
-- internal/cli: the client commands. A command reads its flags, calls the server and prints; what it
-- leaves is the state of the server, the two streams and the exit code.
pub mod Commands
pub mod Wrap
pub mod Run
pub mod Calls
pub mod Delivery
pub mod Exit
pub mod Ends
pub mod Asks
pub mod Codes
pub mod Parts
pub mod Sharing
pub mod RoundTrip
use secretstash.Base.{
  ℕ, ◌≡◌, List, [], ◌∷◌, ◌++◌, Option, none, some, Bytes, length, take, Bool, true, false, ◌==◌,
  if◌then◌else◌,
}
use secretstash.Base.Int.{ℤ, pos}
use secretstash.Base.Result.{Result, ok, err}
use secretstash.Base.Text.{ascii, line, trim_slashes}
use secretstash.Store.{Time}
use secretstash.Api.Json.{Json}

-- The exit codes.
abbrev pub exit_ok : ℕ
exit_ok = 0

abbrev pub exit_error : ℕ
exit_error = 1

abbrev pub exit_usage : ℕ
exit_usage = 2

abbrev pub exit_gone : ℕ
exit_gone = 3

abbrev pub exit_not_found : ℕ
exit_not_found = 4

-- The flags that the commands declare.
pub data Flag : Type 0 where
  addr tls_skip_verify json_out ttl reads shares threshold share print_token : Flag

-- What a flag.FlagSet holds after Parse: the values that were given, and the arguments behind the flags.
pub record Parsed : Type 0 where
  pub text : Flag → Option Bytes
  pub number : Flag → Option ℤ
  pub switch : Flag → Option Bool
  -- The values of a flag that can be repeated, in order.
  pub texts : Flag → List Bytes
  pub args : List Bytes

-- A value that was not given is the default.
abbrev pub given {ℓ} : {A : Type ℓ} → Option A → A → A
given none d = d
given (some a) d = a

-- Standard input: no pipe, a pipe that fails with this text, or one that yields these bytes.
pub data Stdin : Type 0 where
  terminal : Stdin
  broken : Bytes → Stdin
  piped : Bytes → Stdin

-- One request of a client. An absent token or body is empty or `none`.
pub record Outgoing : Type 0 where
  pub method : Bytes
  pub url : Bytes
  pub skip_verify : Bool
  pub token : Bytes
  pub body : Option Bytes

-- The network, and the server behind it in the state W: the status and the body of the answer, or the
-- text of an error. An error may come before or behind the server.
abbrev pub Network : Type 0 → Type 0
Network W = W → Outgoing → W × Result Bytes (ℕ × Bytes)

-- What the commands take from the standard library and their environment. The error of a function is
-- its text.
pub record Client : Type 0 where
  -- flag.FlagSet.Parse, for a command and its flags; the text is what it prints on standard error
  pub parse_flags : Bytes → List Bytes → Result Bytes Parsed
  -- os.Getenv("SECRETSTASH_ADDR")
  pub env_addr : Bytes
  -- http.NewRequest, of a method and a URL
  pub new_request : Bytes → Bytes → Result Bytes (Unit {0})
  -- %d, %q, time.Time's Local().Format(time.RFC3339), time.Duration's String of some seconds
  pub print_int : ℤ → Bytes
  pub print_quoted : Bytes → Bytes
  pub print_time : Time → Bytes
  pub print_seconds : ℤ → Bytes
  pub json : Json

pub record ClientFlags : Type 0 where
  pub addr : Bytes
  pub skip_verify : Bool
  pub json_out : Bool

abbrev pub default_addr : Bytes
default_addr = ascii "https://127.0.0.1:8200"

-- addClientFlags, after Parse.
unfoldable pub client_flags : Client → Parsed → ClientFlags
client_flags lib p = record {
  addr = given (p.text Flag.addr) (elim lib.env_addr [ [] ↦ default_addr | c ∷ s ↦ c ∷ s ]);
  skip_verify = given (p.switch Flag.tls_skip_verify) false;
  json_out = given (p.switch Flag.json_out) false;
}

-- The streams and the exit code that a command leaves.
pub record Outcome (W : Type 0) : Type 0 where
  pub world : W
  pub stdout : Bytes
  pub stderr : Bytes
  pub code : ℕ

-- A command that has printed this on standard error and returns.
abbrev pub fail : {W : Type 0} → W → Bytes → ℕ → Outcome W
fail w stderr code = record { world = w; stdout = []; stderr = stderr; code = code }

abbrev pub error_line : Bytes → Bytes
error_line text = line (ascii "error: " ++ text)

abbrev pub bad_response : Bytes → Bytes
bad_response text = line (ascii "error: bad server response: " ++ text)

-- The answer to a call, with what the client printed on standard error by then.
pub record Called (W : Type 0) : Type 0 where
  pub world : W
  pub printed : Bytes
  pub answer : Result Bytes (ℕ × Bytes)

-- io.LimitReader(resp.Body, 1<<20)
abbrev pub body_max : ℕ
body_max = 1048576

abbrev pub read_answer : Result Bytes (ℕ × Bytes) → Result Bytes (ℕ × Bytes)
read_answer (err e) = err e
read_answer (ok (status, body)) = ok (status, take body_max body)

-- httpClient's warning.
abbrev pub warning : Bool → Bytes
warning true = line (ascii "warning: TLS certificate verification disabled")
warning false = []

module _ {W : Type 0} (lib : Client) (network : Network W) where
  -- call, behind json.Marshal.
  unfoldable pub send : ClientFlags → Bytes → Bytes → Bytes → Option Bytes → W → Called W
  unfolding trim_slashes
  send cf method path token body w = elim (lib.new_request method (trim_slashes cf.addr ++ path)) [
    | err e ↦ record { world = w; printed = []; answer = err e }
    | ok u ↦
        let (w', answer) = network w (record {
          method = method;
          url = trim_slashes cf.addr ++ path;
          skip_verify = cf.skip_verify;
          token = token;
          body = body;
        }) in
        record { world = w'; printed = warning cf.skip_verify; answer = read_answer answer }
  ]

  -- call; `none` is no request body.
  unfoldable pub call :
      ClientFlags → Bytes → Bytes → Bytes → Option (Result Bytes Bytes) → W → Called W
  unfolding send
  call cf method path token none w = send cf method path token none w
  call cf method path token (some (err e)) w = record { world = w; printed = []; answer = err e }
  call cf method path token (some (ok body)) w = send cf method path token (some body) w

-- goneExit: its line on standard error and the exit code.
unfoldable pub gone_code : ℕ → ℕ
gone_code status =
    if status == 410 then exit_gone else if status == 404 then exit_not_found else exit_error

unfoldable pub gone_message : Client → ℕ → Bytes → Bytes
gone_message lib status [] = ascii "server returned HTTP " ++ lib.print_int (pos status)
gone_message lib status (c ∷ message) = c ∷ message

unfoldable pub gone_exit : {W : Type 0} → Client → W → Bytes → ℕ → Bytes → Outcome W
unfolding gone_code gone_message
gone_exit lib w printed status body =
    fail w (printed ++ error_line (gone_message lib status (lib.json.read_message body)))
      (gone_code status)

-- What every client command does with the answer to its call: it goes on where the status is the one
-- that it wants.
unfoldable pub expect :
    {W : Type 0} → Client → ℕ → (W → Bytes → Bytes → Outcome W) → Called W → Outcome W
unfolding gone_exit
expect lib wanted next c = elim c.answer [
  | err e ↦ fail c.world (c.printed ++ error_line e) exit_error
  | ok (status, body) ↦
      if status == wanted
      then next c.world c.printed body
      else gone_exit lib c.world c.printed status body
]
