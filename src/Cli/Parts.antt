-- ===== src/Cli/Parts.antt =====
-- What wrap checks and prints in split mode.
use secretstash.Base.{
  ℕ, ◌≤◌, ◌≡◌, ◌≢◌, refl, List, [], ◌∷◌, some, true, false, ◌==◌, Bytes, length, arith,
}
use secretstash.Base.Int.{ℤ, pos}
use secretstash.Base.Result.{ok}
use secretstash.Base.Text.{ascii}
use secretstash.Shamir.Codec.{Codec}
use secretstash.Shamir.Raw.{Rand}
use secretstash.Shamir.Share.{split}
use secretstash.Crypto.{parse_token}
use secretstash.Api.Json.{Wrapped}
use secretstash.Cli.{
  Flag, Parsed, given, Stdin, Network, Client, ClientFlags, client_flags, call, expect, exit_ok,
}
use secretstash.Cli.Wrap.{
  split_mode, bad_quorum, read_secret, wrap_secret, shares_text, print_parts, split_raw_token,
  print_shares, print_wrapped, wrap_flags,
}

is_some : (s : Bytes) → s ≢ [] → (length s == 0) ≡ false
is_some [] h = absurd (h refl)
is_some (c ∷ s) h = ground arith

pub split_mode-pos : (n k : ℕ) → 2 ≤ n → split_mode (pos n) (pos k) ≡ true
unfolding split_mode
split_mode-pos n k h = ground arith

bad_quorum-pos : (n k : ℕ) → 2 ≤ k → k ≤ n → n ≤ 255 → bad_quorum (pos n) (pos k) ≡ false
unfolding bad_quorum
bad_quorum-pos n k low high few = ground arith

-- A quorum in range and one argument that is not empty pass the checks of wrap.
pub wrap_secret-ok :
    (n k : ℕ) (secret : Bytes) (stdin : Stdin)
    → 2 ≤ k
    → k ≤ n
    → n ≤ 255
    → secret ≢ []
    → wrap_secret (pos n) (pos k) (secret ∷ []) stdin ≡ ok secret
unfolding wrap_secret read_secret
wrap_secret-ok n k secret stdin low high few some_secret =
    rw
      (
        split_mode-pos n k (omega arith),
        bad_quorum-pos n k low high few,
        is_some secret some_secret,
      )
      refl

-- What wrap prints in split mode, for the token in the answer of the server.
pub print_wrapped-ok :
    {W : Type 0} (lib : Client) (codec : Codec) (rand : Rand) (rand_error : Bytes)
    (cf : ClientFlags) (n k : ℕ) (w : W) (printed body raw : Bytes) (r : Wrapped)
    (parts : List Bytes)
    → cf.json_out ≡ false
    → 2 ≤ n
    → lib.json.read_wrapped body ≡ ok r
    → parse_token codec r.token ≡ ok raw
    → split codec rand raw n k ≡ ok parts
    → print_wrapped lib codec rand rand_error cf (pos n) (pos k) w printed body ≡ record {
      world = w;
      stdout = shares_text lib parts (pos n) (pos k) r.reads r.expires_at;
      stderr = printed;
      code = exit_ok;
    }
unfolding print_wrapped print_shares split_raw_token print_parts
print_wrapped-ok lib codec rand rand_error cf n k w printed body raw r parts j low read p s =
    rw (j, read, print_wrapped)
      (rw (split_mode-pos n k low)
        (rw (p, print_shares) (rw (s, split_raw_token) (rw (j, print_parts) refl))))

-- wrap behind the checks of its arguments.
pub wrap_flags-ok :
    {W : Type 0} (lib : Client) (codec : Codec) (rand : Rand) (rand_error : Bytes)
    (network : Network W) (stdin : Stdin) (p : Parsed) (w : W) (secret : Bytes) (n k : ℤ)
    → given (p.number Flag.shares) (pos 0) ≡ n
    → given (p.number Flag.threshold) (pos 0) ≡ k
    → wrap_secret n k p.args stdin ≡ ok secret
    → wrap_flags lib codec rand rand_error network stdin p w
      ≡ expect lib 200 (print_wrapped lib codec rand rand_error (client_flags lib p) n k) (
          call lib network
            (client_flags lib p)
            (ascii "POST")
            (ascii "/v1/wrap")
            []
            (some (
              lib.json.write_request secret
                (given (p.number Flag.reads) (pos 1))
                (given (p.text Flag.ttl) [])))
            w)
unfolding wrap_flags
wrap_flags-ok lib codec rand rand_error network stdin p w secret n k sn sk h =
    rw (wrap_flags, sn, sk) (rw (h, wrap_flags) (rw (sn, sk) refl))
