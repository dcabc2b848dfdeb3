-- ===== src/Cli/Codes.antt =====
-- How unwrap, combine, peek, revoke and status of internal/cli/client.go end.
pub mod Program
use secretstash.Base.{
  ℕ, ◌≤◌, ◌≡◌, refl, inl, inr, List, [], ◌∷◌, ◌++◌, Option, none, some, Bool, true, false, not,
  ◌&&◌, Bytes, arith, length, ltb, lookup, bytes_dec, ◌==◌, if◌then◌else◌,
}
use secretstash.Base.Int.{ℤ, pos}
use secretstash.Base.Result.{Result, ok, err}
use secretstash.Base.Text.{ascii, line}
use secretstash.Shamir.Codec.{Codec}
use secretstash.Shamir.Raw.{Rand}
use secretstash.Shamir.Share.{Failure, combine, split}
use secretstash.Crypto.{Error, encode_token, parse_token}
use secretstash.Store.{Time}
use secretstash.Api.Json.{Wrapped}
use secretstash.Cli.{
  given, Flag, Parsed, Stdin, Network, Client, ClientFlags, client_flags, Outcome, fail, Called,
  call, error_line, expect, gone_exit, gone_code, exit_ok, exit_error, exit_usage,
}
use secretstash.Cli.Ends.{Ends, IsLocal, expect-Ends, if_intro}
use secretstash.Cli.Commands.{
  print_secret, unwrap_with_token, with_token, with_flags, cmd_unwrap, print_peek, peek_token,
  cmd_peek, print_revoked, revoke_token, cmd_revoke, print_status, cmd_status, use_token, use_raw,
  combine_all, cmd_combine, bad_token_text, failure_text,
}
use secretstash.Cli.Wrap.{
  Exit, split_mode, read_stdin, read_secret, wrap_secret, print_parts, split_raw_token,
  print_shares, print_wrapped, wrap_flags, cmd_wrap,
}
use secretstash.Cli.Run.{ServerFlags, ServerLib, cmd_server, Command, commands, run_command, run_io}

module _ {W : Type 0} (lib : Client) (network : Network W) where
  pub print_secret-IsLocal :
      (cf : ClientFlags) (w : W) (p b : Bytes) → IsLocal w (print_secret lib network cf w p b)
  unfolding print_secret
  print_secret-IsLocal cf w p b = ground arith

  pub print_peek-IsLocal :
      (cf : ClientFlags) (w : W) (p b : Bytes) → IsLocal w (print_peek lib network cf w p b)
  unfolding print_peek
  print_peek-IsLocal cf w p b = ground arith

  print_status-IsLocal :
      (cf : ClientFlags) (w : W) (p b : Bytes) → IsLocal w (print_status lib network cf w p b)
  unfolding print_status
  print_status-IsLocal cf w p b = ground arith

  pub print_revoked-IsLocal : (w : W) (p b : Bytes) → IsLocal w (print_revoked lib network w p b)
  unfolding print_revoked
  print_revoked-IsLocal w p b = (refl, omega arith)

  unwrap_with_token-Ends :
      (cf : ClientFlags) (token : Bytes) (w : W)
      → Ends network w (unwrap_with_token lib network cf token w)
  unfolding unwrap_with_token
  unwrap_with_token-Ends cf token w =
      expect-Ends lib 200 (print_secret lib network cf) (inl refl) (print_secret-IsLocal cf) network
        cf (ascii "POST") (ascii "/v1/unwrap") token none w

  peek_token-Ends :
      (cf : ClientFlags) (token : Bytes) (w : W)
      → Ends network w (peek_token lib network cf token w)
  unfolding peek_token
  peek_token-Ends cf token w =
      expect-Ends lib 200 (print_peek lib network cf) (inl refl) (print_peek-IsLocal cf) network cf
        (ascii "GET") (ascii "/v1/peek") token none w

  revoke_token-Ends :
      (cf : ClientFlags) (token : Bytes) (w : W)
      → Ends network w (revoke_token lib network cf token w)
  unfolding revoke_token
  revoke_token-Ends cf token w =
      expect-Ends lib 204 (print_revoked lib network) (inr refl) print_revoked-IsLocal network cf
        (ascii "DELETE") (ascii "/v1/secret") token none w

  with_token-Ends :
      (text : Bytes) (next : Bytes → W → Outcome W) (args : List Bytes) (w : W)
      → ((t : Bytes) (w : W) → Ends network w (next t w))
      → Ends network w (with_token lib network text next args w)
  unfolding with_token
  with_token-Ends text next [] w h = Ends.alone refl (omega arith)
  with_token-Ends text next (t ∷ []) w h = h t w
  with_token-Ends text next (s ∷ t ∷ rest) w h = Ends.alone refl (omega arith)

  pub with_flags-Ends :
      (command : Bytes) (next : Parsed → W → Outcome W) (args : List Bytes) (w : W)
      → ((p : Parsed) (w : W) → Ends network w (next p w))
      → Ends network w (with_flags lib network command next args w)
  unfolding with_flags
  with_flags-Ends command next args w h = parsed (lib.parse_flags command args)
    where
      parsed :
          (r : Result Bytes Parsed)
          → Ends network w (elim r [ err text ↦ fail w text exit_usage | ok p ↦ next p w ])
      parsed (err text) = Ends.alone refl (omega arith)
      parsed (ok p) = h p w

  pub cmd_unwrap-Ends : (args : List Bytes) (w : W) → Ends network w (cmd_unwrap lib network args w)
  unfolding cmd_unwrap
  cmd_unwrap-Ends args w =
      with_flags-Ends (ascii "unwrap")
        (λ p.
          with_token lib network (ascii "usage: secretstash unwrap <token>")
            (unwrap_with_token lib network (client_flags lib p)) p.args)
        args w
        (λ p w.
          with_token-Ends (ascii "usage: secretstash unwrap <token>")
            (unwrap_with_token lib network (client_flags lib p)) p.args w
            (unwrap_with_token-Ends (client_flags lib p)))

  pub cmd_peek-Ends : (args : List Bytes) (w : W) → Ends network w (cmd_peek lib network args w)
  unfolding cmd_peek
  cmd_peek-Ends args w =
      with_flags-Ends (ascii "peek")
        (λ p.
          with_token lib network (ascii "usage: secretstash peek <token>")
            (peek_token lib network (client_flags lib p)) p.args)
        args w
        (λ p w.
          with_token-Ends (ascii "usage: secretstash peek <token>")
            (peek_token lib network (client_flags lib p)) p.args w
            (peek_token-Ends (client_flags lib p)))

  pub cmd_revoke-Ends : (args : List Bytes) (w : W) → Ends network w (cmd_revoke lib network args w)
  unfolding cmd_revoke
  cmd_revoke-Ends args w =
      with_flags-Ends (ascii "revoke")
        (λ p.
          with_token lib network (ascii "usage: secretstash revoke <token>")
            (revoke_token lib network (client_flags lib p)) p.args)
        args w
        (λ p w.
          with_token-Ends (ascii "usage: secretstash revoke <token>")
            (revoke_token lib network (client_flags lib p)) p.args w
            (revoke_token-Ends (client_flags lib p)))

  pub cmd_status-Ends : (args : List Bytes) (w : W) → Ends network w (cmd_status lib network args w)
  unfolding cmd_status
  cmd_status-Ends args w =
      with_flags-Ends (ascii "status")
        (λ p w.
          expect lib 200 (print_status lib network (client_flags lib p)) (
            call lib network (client_flags lib p) (ascii "GET") (ascii "/v1/sys/health") [] none w))
        args w
        (λ p w.
          let cf = client_flags lib p in
          expect-Ends lib 200 (print_status lib network cf) (inl refl) (print_status-IsLocal cf)
            network cf (ascii "GET") (ascii "/v1/sys/health") [] none w)

  module _ (codec : Codec) where
    use_token-Ends :
        (cf : ClientFlags) (print_token : Bool) (token : Bytes) (w : W)
        → Ends network w (use_token lib network codec cf print_token token w)
    unfolding use_token
    use_token-Ends cf print_token token w =
        if_intro (Ends network w) print_token _ _ (Ends.alone refl (omega arith))
          (unwrap_with_token-Ends cf token w)

    use_raw-Ends :
        (cf : ClientFlags) (print_token : Bool) (raw : Bytes) (w : W)
        → Ends network w (use_raw lib network codec cf print_token raw w)
    unfolding use_raw
    use_raw-Ends cf print_token raw w = encoded (encode_token codec raw)
      where
        encoded :
            (r : Result Error Bytes)
            → Ends network w (elim r [
              | err e ↦
                  fail w
                    (line (ascii "error: reconstructed token is invalid: " ++ bad_token_text))
                    exit_error
              | ok token ↦ use_token lib network codec cf print_token token w
            ])
        encoded (err e) = Ends.alone refl (omega arith)
        encoded (ok token) = use_token-Ends cf print_token token w

    combine_all-Ends :
        (cf : ClientFlags) (print_token : Bool) (shares : List Bytes) (w : W)
        → Ends network w (combine_all lib network codec cf print_token shares w)
    unfolding combine_all
    combine_all-Ends cf print_token shares w =
        if_intro (Ends network w) (ltb (length shares) 2) _ _ (Ends.alone refl (omega arith))
          (combined (combine codec shares))
      where
        combined :
            (r : Result Failure Bytes)
            → Ends network w (elim r [
              | err e ↦ fail w (error_line (failure_text lib [] e)) exit_usage
              | ok raw ↦ use_raw lib network codec cf print_token raw w
            ])
        combined (err e) = Ends.alone refl (omega arith)
        combined (ok raw) = use_raw-Ends cf print_token raw w

    pub cmd_combine-Ends :
        (args : List Bytes) (w : W) → Ends network w (cmd_combine lib network codec args w)
    unfolding cmd_combine
    cmd_combine-Ends args w =
        with_flags-Ends (ascii "combine")
          (λ p.
            combine_all lib network codec (client_flags lib p)
              (given (p.switch Flag.print_token) false) (p.texts Flag.share ++ p.args))
          args w
          (λ p w.
            combine_all-Ends (client_flags lib p) (given (p.switch Flag.print_token) false)
              (p.texts Flag.share ++ p.args) w)
