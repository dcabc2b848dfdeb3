-- ===== src/Cli/Commands.antt =====
-- internal/cli/client.go: unwrap, combine, peek, revoke and status.
use secretstash.Base.{List, [], ◌∷◌, ◌++◌, none, Bytes, length, Bool, false, ltb, if◌then◌else◌}
use secretstash.Base.Int.{ℤ, pos, is_nonpos}
use secretstash.Base.Result.{ok, err}
use secretstash.Base.Text.{ascii, line}
use secretstash.Shamir.Codec.{Codec}
use secretstash.Shamir.Share as shamir
use secretstash.Shamir.Share.{Failure, bare, in_share, combine}
use secretstash.Crypto.{encode_token}
use secretstash.Cli.{
  Flag, Parsed, given, Network, Client, ClientFlags, client_flags, Outcome, fail, error_line,
  bad_response, call, expect, exit_ok, exit_error, exit_usage,
}

-- The texts of the errors of internal/shamir; that of crypto/rand is given.
unfoldable pub error_text : Bytes → shamir.Error → Bytes
error_text rand_error shamir.empty_secret = ascii "shamir: secret is empty"
error_text rand_error shamir.invalid_threshold = ascii "shamir: threshold must satisfy 2 <= k <= n"
error_text rand_error shamir.too_many_shares = ascii "shamir: number of shares exceeds 255"
error_text rand_error shamir.bad_share = ascii "shamir: malformed share"
error_text rand_error shamir.bad_checksum =
    ascii "shamir: share failed checksum (corrupted or mistyped)"
error_text rand_error shamir.threshold_mismatch = ascii "shamir: shares disagree on threshold"
error_text rand_error shamir.share_length = ascii "shamir: shares differ in length"
error_text rand_error shamir.duplicate_x = ascii "shamir: duplicate share coordinate"
error_text rand_error shamir.too_few_shares = ascii "shamir: not enough shares to reconstruct"
error_text rand_error shamir.randomness = ascii "shamir: reading randomness: " ++ rand_error

unfoldable pub failure_text : Client → Bytes → Failure → Bytes
unfolding error_text
failure_text lib rand_error (bare e) = error_text rand_error e
failure_text lib rand_error (in_share i e) =
    ascii "share " ++ (lib.print_int (pos i) ++ (ascii ": " ++ error_text rand_error e))

-- ErrBadToken
abbrev pub bad_token_text : Bytes
bad_token_text = ascii "invalid token"

module _ {W : Type 0} (lib : Client) (network : Network W) where
  -- What is left of the reads, on standard error.
  unfoldable pub remaining : ℤ → Bytes
  remaining reads =
      if is_nonpos reads
      then 10 ∷ line (ascii "final read, the secret is now destroyed")
      else 10 ∷ line (lib.print_int reads ++ ascii " read(s) remaining")

  -- unwrapWithToken, behind the call.
  unfoldable pub print_secret : ClientFlags → W → Bytes → Bytes → Outcome W
  unfolding remaining
  print_secret cf w printed body =
      if cf.json_out
      then record { world = w; stdout = body; stderr = printed; code = exit_ok }
      else elim (lib.json.read_unwrapped body) [
        | err e ↦ fail w (printed ++ bad_response e) exit_error
        | ok (secret, reads) ↦ record {
          world = w;
          stdout = secret;
          stderr = printed ++ remaining reads;
          code = exit_ok;
        }
      ]

  unfoldable pub unwrap_with_token : ClientFlags → Bytes → W → Outcome W
  unfolding call expect print_secret
  unwrap_with_token cf token w =
      expect lib 200 (print_secret cf)
        (call lib network cf (ascii "POST") (ascii "/v1/unwrap") token none w)

  -- fs.NArg() != 1
  unfoldable pub with_token : Bytes → (Bytes → W → Outcome W) → List Bytes → W → Outcome W
  with_token usage next (token ∷ []) w = next token w
  with_token usage next [] w = fail w (line usage) exit_usage
  with_token usage next (s ∷ t ∷ rest) w = fail w (line usage) exit_usage

  -- fs.Parse(args)
  unfoldable pub with_flags : Bytes → (Parsed → W → Outcome W) → List Bytes → W → Outcome W
  with_flags command next args w = elim (lib.parse_flags command args) [
    | err text ↦ fail w text exit_usage
    | ok p ↦ next p w
  ]

  unfoldable pub cmd_unwrap : List Bytes → W → Outcome W
  unfolding with_flags with_token unwrap_with_token
  cmd_unwrap = with_flags (ascii "unwrap") (λ p.
      with_token (ascii "usage: secretstash unwrap <token>")
        (unwrap_with_token (client_flags lib p)) p.args)

  unfoldable pub print_peek : ClientFlags → W → Bytes → Bytes → Outcome W
  print_peek cf w printed body =
      if cf.json_out
      then record { world = w; stdout = body; stderr = printed; code = exit_ok }
      else elim (lib.json.read_peeked body) [
        | err e ↦ fail w (printed ++ bad_response e) exit_error
        | ok (expiry, reads) ↦ record {
          world = w;
          stdout =
              line (ascii "reads remaining: " ++ lib.print_int reads)
              ++ line (ascii "expires:         " ++ lib.print_time expiry);
          stderr = printed;
          code = exit_ok;
        }
      ]

  unfoldable pub peek_token : ClientFlags → Bytes → W → Outcome W
  unfolding call expect print_peek
  peek_token cf token w =
      expect lib 200 (print_peek cf)
        (call lib network cf (ascii "GET") (ascii "/v1/peek") token none w)

  unfoldable pub cmd_peek : List Bytes → W → Outcome W
  unfolding with_flags with_token peek_token
  cmd_peek = with_flags (ascii "peek") (λ p.
      with_token (ascii "usage: secretstash peek <token>") (peek_token (client_flags lib p)) p.args)

  unfoldable pub print_revoked : W → Bytes → Bytes → Outcome W
  print_revoked w printed body = record {
    world = w;
    stdout = line (ascii "secret revoked");
    stderr = printed;
    code = exit_ok;
  }

  unfoldable pub revoke_token : ClientFlags → Bytes → W → Outcome W
  unfolding call expect print_revoked
  revoke_token cf token w =
      expect lib 204 print_revoked
        (call lib network cf (ascii "DELETE") (ascii "/v1/secret") token none w)

  unfoldable pub cmd_revoke : List Bytes → W → Outcome W
  unfolding with_flags with_token revoke_token
  cmd_revoke = with_flags (ascii "revoke") (λ p.
      with_token (ascii "usage: secretstash revoke <token>") (revoke_token (client_flags lib p))
        p.args)

  unfoldable pub print_status : ClientFlags → W → Bytes → Bytes → Outcome W
  print_status cf w printed body =
      if cf.json_out
      then record { world = w; stdout = body; stderr = printed; code = exit_ok }
      else elim (lib.json.read_health body) [
        | err e ↦ fail w (printed ++ bad_response e) exit_error
        | ok (status, version, uptime) ↦ record {
          world = w;
          stdout =
              line (ascii "server:  " ++ cf.addr)
              ++ (line (ascii "status:  " ++ status)
                  ++ (line (ascii "version: " ++ version)
                      ++ line (ascii "uptime:  " ++ lib.print_seconds uptime)));
          stderr = printed;
          code = exit_ok;
        }
      ]

  unfoldable pub cmd_status : List Bytes → W → Outcome W
  unfolding with_flags call expect print_status
  cmd_status = with_flags (ascii "status") (λ p w.
      expect lib 200 (print_status (client_flags lib p))
        (call lib network (client_flags lib p) (ascii "GET") (ascii "/v1/sys/health") [] none w))

  module _ (codec : Codec) where
    -- cmdCombine behind EncodeToken.
    unfoldable pub use_token : ClientFlags → Bool → Bytes → W → Outcome W
    unfolding unwrap_with_token
    use_token cf print_token token w =
        if print_token
        then record { world = w; stdout = line token; stderr = []; code = exit_ok }
        else unwrap_with_token cf token w

    unfoldable pub use_raw : ClientFlags → Bool → Bytes → W → Outcome W
    unfolding use_token
    use_raw cf print_token raw w = elim (encode_token codec raw) [
      | err e ↦
          fail w (line (ascii "error: reconstructed token is invalid: " ++ bad_token_text))
            exit_error
      | ok token ↦ use_token cf print_token token w
    ]

    -- cmdCombine behind Parse. Combine draws no random bytes.
    unfoldable pub combine_all : ClientFlags → Bool → List Bytes → W → Outcome W
    unfolding use_raw failure_text
    combine_all cf print_token shares w =
        if ltb (length shares) 2
        then fail w
            (line
              (ascii "usage: secretstash combine <share> <share> [share...]  (or repeat --share)"))
            exit_usage
        else elim (combine codec shares) [
          | err e ↦ fail w (error_line (failure_text lib [] e)) exit_usage
          | ok raw ↦ use_raw cf print_token raw w
        ]

    unfoldable pub cmd_combine : List Bytes → W → Outcome W
    unfolding with_flags combine_all
    cmd_combine = with_flags (ascii "combine") (λ p.
        combine_all (client_flags lib p) (given (p.switch Flag.print_token) false)
          (p.texts Flag.share ++ p.args))
