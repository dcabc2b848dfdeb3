-- ===== src/Cli/Wrap.antt =====
-- internal/cli/client.go: wrap, with the token whole or split into shares.
use secretstash.Base.{
  ℕ, List, [], ◌∷◌, ◌++◌, some, Bytes, length, take, Bool, true, false, not, ◌||◌, ◌&&◌, ◌==◌,
  if◌then◌else◌,
}
use secretstash.Base.Int.{ℤ, pos, ltz, is_zero, to_ℕ}
use secretstash.Base.Result.{Result, ok, err, ◌>>=◌, ◌>>◌, refuse}
use secretstash.Base.Text.{ascii, line}
use secretstash.Shamir.Codec.{Codec}
use secretstash.Shamir.Raw.{Rand}
use secretstash.Shamir.Share.{split}
use secretstash.Crypto.{parse_token}
use secretstash.Store.{Time}
use secretstash.Api.Json.{Wrapped}
use secretstash.Cli.{
  Flag, Parsed, given, Stdin, terminal, broken, piped, Network, Client, ClientFlags, client_flags,
  Outcome, fail, error_line, bad_response, call, expect, exit_ok, exit_error, exit_usage,
}
use secretstash.Cli.Commands.{failure_text, bad_token_text, with_flags}

-- *shares != 0 || *threshold != 0
unfoldable pub split_mode : ℤ → ℤ → Bool
split_mode shares threshold = not (is_zero shares && is_zero threshold)

-- The quorum is no 2 <= threshold <= shares <= 255.
unfoldable pub bad_quorum : ℤ → ℤ → Bool
bad_quorum shares threshold =
    ltz shares (pos 2) || (ltz threshold (pos 2) || (ltz shares threshold || ltz (pos 255) shares))

-- An early return: what is printed on standard error, and the exit code.
abbrev pub Exit : Type 0
Exit = Bytes × ℕ

-- io.LimitReader(stdin, 1<<24)
abbrev pub stdin_max : ℕ
stdin_max = 16777216

abbrev pub read_stdin : Stdin → Result Exit Bytes
read_stdin terminal =
    err (line (ascii "error: provide a secret argument or pipe one on stdin"), exit_usage)
read_stdin (broken text) = err (line (ascii "error reading stdin: " ++ text), exit_error)
read_stdin (piped b) = ok (take stdin_max b)

-- The secret: the one argument, or what is piped in.
unfoldable pub read_secret : List Bytes → Stdin → Result Exit Bytes
read_secret [] stdin = read_stdin stdin
read_secret (secret ∷ []) stdin = ok secret
read_secret (s ∷ t ∷ rest) stdin =
    err (line (ascii "error: expected at most one secret argument"), exit_usage)

-- cmdWrap up to the request.
unfoldable pub wrap_secret : ℤ → ℤ → List Bytes → Stdin → Result Exit Bytes
unfolding split_mode bad_quorum read_secret
wrap_secret shares threshold args stdin = do
  refuse (split_mode shares threshold && bad_quorum shares threshold) (
    line (ascii "error: --shares and --threshold must satisfy 2 <= threshold <= shares <= 255"),
    exit_usage,
  )
  secret ← read_secret args stdin
  refuse (length secret == 0) (line (ascii "error: secret is empty"), exit_usage)
  ok secret

module _ (lib : Client) where
  -- The lines of the shares.
  unfoldable pub share_lines : List Bytes → Bytes
  share_lines [] = []
  share_lines (s ∷ shares) = line (ascii "  " ++ s) ++ share_lines shares

  -- What printShares prints without --json.
  unfoldable pub shares_text : List Bytes → ℤ → ℤ → ℤ → Time → Bytes
  unfolding share_lines
  shares_text parts n k reads expires =
      line (
        ascii "shares ("
        ++ (lib.print_int k
            ++ (ascii " of " ++ (lib.print_int n ++ ascii " required to reconstruct):"))))
      ++ (share_lines parts
          ++ (line (ascii "reads:     " ++ lib.print_int reads)
              ++ (line (ascii "expires:   " ++ lib.print_time expires)
                  ++ line (
                      10
                      ∷ (ascii "any "
                          ++ (lib.print_int k
                              ++ ascii
                                  " reconstruct with:  secretstash combine <share> <share> ..."))))))

  -- What cmdWrap prints for a whole token.
  unfoldable pub token_text : Wrapped → Bytes
  token_text r =
      line (ascii "token:     " ++ r.token)
      ++ (elim r.share_url [ [] ↦ [] | c ∷ s ↦ line (ascii "share url: " ++ (c ∷ s)) ]
          ++ (line (ascii "reads:     " ++ lib.print_int r.reads)
              ++ line (ascii "expires:   " ++ lib.print_time r.expires_at)))

module _ {W : Type 0} (lib : Client) where
  -- printShares behind Split.
  unfoldable pub print_parts : W → Bytes → Bool → List Bytes → ℤ → ℤ → ℤ → Time → Outcome W
  unfolding shares_text
  print_parts w printed true parts n k reads expires =
      elim (lib.json.write_shares parts k reads expires) [
        | err e ↦ fail w (printed ++ error_line e) exit_error
        | ok out ↦ record { world = w; stdout = out; stderr = printed; code = exit_ok }
      ]
  print_parts w printed false parts n k reads expires = record {
    world = w;
    stdout = shares_text lib parts n k reads expires;
    stderr = printed;
    code = exit_ok;
  }

  module _ (codec : Codec) (rand : Rand) (rand_error : Bytes) where
    -- printShares behind ParseToken.
    unfoldable pub split_raw_token : W → Bytes → Bool → Bytes → ℤ → ℤ → ℤ → Time → Outcome W
    unfolding print_parts failure_text
    split_raw_token w printed json_out raw n k reads expires =
        elim (split codec rand raw (to_ℕ n) (to_ℕ k)) [
          | err e ↦
              fail w
                (printed
                  ++ line (ascii "error: splitting token: " ++ failure_text lib rand_error e))
                exit_error
          | ok parts ↦ print_parts w printed json_out parts n k reads expires
        ]

    unfoldable pub print_shares : W → Bytes → Bool → Bytes → ℤ → ℤ → ℤ → Time → Outcome W
    unfolding split_raw_token
    print_shares w printed json_out token n k reads expires = elim (parse_token codec token) [
      | err e ↦ fail w (printed ++ bad_response bad_token_text) exit_error
      | ok raw ↦ split_raw_token w printed json_out raw n k reads expires
    ]

    -- cmdWrap behind the answer of the server.
    unfoldable pub print_wrapped : ClientFlags → ℤ → ℤ → W → Bytes → Bytes → Outcome W
    unfolding split_mode print_shares token_text
    print_wrapped cf shares threshold w printed body =
        if cf.json_out && not (split_mode shares threshold)
        then record { world = w; stdout = body; stderr = printed; code = exit_ok }
        else elim (lib.json.read_wrapped body) [
          | err e ↦ fail w (printed ++ bad_response e) exit_error
          | ok r ↦
              if split_mode shares threshold
              then print_shares w printed cf.json_out r.token shares threshold r.reads r.expires_at
              else record { world = w; stdout = token_text lib r; stderr = printed; code = exit_ok }
        ]

    module _ (network : Network W) where
      unfoldable pub wrap_flags : Stdin → Parsed → W → Outcome W
      unfolding wrap_secret call expect print_wrapped
      wrap_flags stdin p w =
          let cf = client_flags lib p in
          let shares = given (p.number Flag.shares) (pos 0) in
          let threshold = given (p.number Flag.threshold) (pos 0) in
          elim (wrap_secret shares threshold p.args stdin) [
            | err (text, code) ↦ fail w text code
            | ok secret ↦ expect lib 200 (print_wrapped cf shares threshold) (
                call lib network cf (ascii "POST") (ascii "/v1/wrap") []
                  (some (
                    lib.json.write_request secret (given (p.number Flag.reads) (pos 1))
                      (given (p.text Flag.ttl) [])))
                  w)
          ]

      unfoldable pub cmd_wrap : Stdin → List Bytes → W → Outcome W
      unfolding with_flags wrap_flags
      cmd_wrap stdin = with_flags lib network (ascii "wrap") (wrap_flags stdin)
