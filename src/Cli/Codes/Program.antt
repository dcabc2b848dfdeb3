-- ===== src/Cli/Codes/Program.antt =====
-- How wrap, the server and the program end.
use secretstash.Base.{
  ℕ, ◌≤◌, ◌≡◌, refl, inl, List, [], ◌∷◌, ◌++◌, Option, none, some, Bool, true, false, not, ◌&&◌,
  Bytes, arith, length, lookup, bytes_dec, ◌==◌, if◌then◌else◌,
}
use secretstash.Base.Int.{ℤ, pos}
use secretstash.Base.Result.{Result, ok, err, ◌>>=◌, ◌>>◌, refuse}
use secretstash.Base.Text.{ascii, line}
use secretstash.Shamir.Codec.{Codec}
use secretstash.Shamir.Raw.{Rand}
use secretstash.Shamir.Share.{Failure}
use secretstash.Crypto.{Error, parse_token}
use secretstash.Store.{Time}
use secretstash.Api.Json.{Wrapped}
use secretstash.Cli.{
  given, Flag, Parsed, Stdin, terminal, broken, piped, Network, Client, ClientFlags, client_flags,
  fail, call, error_line, bad_response, expect, exit_ok, exit_error, exit_usage,
}
use secretstash.Cli.Commands.{bad_token_text, failure_text}
use secretstash.Cli.Wrap.{
  Exit, split_mode, bad_quorum, read_secret, wrap_secret, token_text, print_parts, split_raw_token,
  print_shares, print_wrapped, wrap_flags, cmd_wrap,
}
use secretstash.Server.{Config}
use secretstash.Cli.Run.{
  ServerFlags, ServerLib, server_config, deprecation, cmd_server, Command, server, wrap, unwrap,
  combine, peek, revoke, status, version, help, commands, usage, run_command, run_io,
}
use secretstash.Cli.Ends.{Ends, IsLocal, expect-Ends, if_intro}
use secretstash.Cli.Codes.{
  with_flags-Ends, cmd_unwrap-Ends, cmd_peek-Ends, cmd_revoke-Ends, cmd_status-Ends,
  cmd_combine-Ends,
}

-- The exit code of an early return.
abbrev Returns : Result Exit Bytes → Type 0
Returns (ok secret) = Unit
Returns (err (text, code)) = code ≤ 2

read_secret-Returns : (args : List Bytes) (stdin : Stdin) → Returns (read_secret args stdin)
unfolding read_secret
read_secret-Returns [] terminal = omega arith
read_secret-Returns [] (broken text) = omega arith
read_secret-Returns [] (piped b) = tt
read_secret-Returns (secret ∷ []) stdin = tt
read_secret-Returns (s ∷ t ∷ rest) stdin = omega arith

Returns-refuse :
    (bad : Bool) (text : Bytes) (code : ℕ) (m : Result Exit Bytes)
    → code ≤ 2
    → Returns m
    → Returns (refuse bad (text, code) >> m)
Returns-refuse true text code m h k = h
Returns-refuse false text code m h k = k

Returns-bind :
    (m : Result Exit Bytes) (f : Bytes → Result Exit Bytes)
    → Returns m
    → ((s : Bytes) → Returns (f s))
    → Returns (m >>= f)
Returns-bind (ok s) f h k = k s
Returns-bind (err e) f h k = h

wrap_secret-Returns :
    (shares threshold : ℤ) (args : List Bytes) (stdin : Stdin)
    → Returns (wrap_secret shares threshold args stdin)
unfolding wrap_secret
wrap_secret-Returns shares threshold args stdin =
    Returns-refuse (split_mode shares threshold && bad_quorum shares threshold) _ _ _ (omega arith)
      (Returns-bind (read_secret args stdin) _ (read_secret-Returns args stdin)
        (λ secret. Returns-refuse (length secret == 0) _ _ _ (omega arith) tt))

module _ {W : Type 0} (lib : Client) where
  print_parts-IsLocal :
      (w : W) (printed : Bytes) (json_out : Bool) (parts : List Bytes) (n k reads : ℤ)
      (expires : Time)
      → IsLocal w (print_parts lib w printed json_out parts n k reads expires)
  unfolding print_parts
  print_parts-IsLocal w printed true parts n k reads expires =
      written (lib.json.write_shares parts k reads expires)
    where
      written :
          (r : Result Bytes Bytes)
          → IsLocal {W = W} w (elim r [
            | err e ↦ fail w (printed ++ error_line e) exit_error
            | ok out ↦ record { world = w; stdout = out; stderr = printed; code = exit_ok }
          ])
      written (err e) = (refl, omega arith)
      written (ok out) = (refl, omega arith)
  print_parts-IsLocal w printed false parts n k reads expires = (refl, omega arith)

  module _ (codec : Codec) (rand : Rand) (rand_error : Bytes) where
    split_raw_token-IsLocal :
        (w : W) (printed : Bytes) (json_out : Bool) (raw : Bytes) (n k reads : ℤ) (expires : Time)
        → IsLocal w
            (split_raw_token lib codec rand rand_error w printed json_out raw n k reads expires)
    unfolding split_raw_token
    split_raw_token-IsLocal w printed json_out raw n k reads expires = parted _
      where
        parted :
            (r : Result Failure (List Bytes))
            → IsLocal w (elim r [
              | err e ↦
                  fail w
                    (printed
                      ++ line (ascii "error: splitting token: " ++ failure_text lib rand_error e))
                    exit_error
              | ok parts ↦ print_parts lib w printed json_out parts n k reads expires
            ])
        parted (err e) = (refl, omega arith)
        parted (ok parts) = print_parts-IsLocal w printed json_out parts n k reads expires

    print_shares-IsLocal :
        (w : W) (printed : Bytes) (json_out : Bool) (token : Bytes) (n k reads : ℤ) (expires : Time)
        → IsLocal w
            (print_shares lib codec rand rand_error w printed json_out token n k reads expires)
    unfolding print_shares
    print_shares-IsLocal w printed json_out token n k reads expires =
        parsed (parse_token codec token)
      where
        parsed :
            (r : Result Error Bytes)
            → IsLocal w (elim r [
              | err e ↦ fail w (printed ++ bad_response bad_token_text) exit_error
              | ok raw ↦
                  split_raw_token lib codec rand rand_error w printed json_out raw n k reads expires
            ])
        parsed (err e) = (refl, omega arith)
        parsed (ok raw) = split_raw_token-IsLocal w printed json_out raw n k reads expires

    print_wrapped-IsLocal :
        (cf : ClientFlags) (shares threshold : ℤ) (w : W) (printed body : Bytes)
        → IsLocal w (print_wrapped lib codec rand rand_error cf shares threshold w printed body)
    unfolding print_wrapped
    print_wrapped-IsLocal cf shares threshold w printed body =
        if_intro (IsLocal w) (cf.json_out && not (split_mode shares threshold)) _ _
          (refl, omega arith) (read (lib.json.read_wrapped body))
      where
        read :
            (r : Result Bytes Wrapped)
            → IsLocal w (elim r [
              | err e ↦ fail w (printed ++ bad_response e) exit_error
              | ok r ↦
                  if split_mode shares threshold
                  then print_shares lib codec rand rand_error w printed cf.json_out r.token shares
                      threshold r.reads r.expires_at
                  else record {
                    world = w;
                    stdout = token_text lib r;
                    stderr = printed;
                    code = exit_ok;
                  }
            ])
        read (err e) = (refl, omega arith)
        read (ok r) =
            if_intro (IsLocal w) (split_mode shares threshold) _ _
              (print_shares-IsLocal w printed cf.json_out r.token shares threshold r.reads
                r.expires_at)
              (refl, omega arith)

    cmd_wrap-Ends :
        (network : Network W) (stdin : Stdin) (args : List Bytes) (w : W)
        → Ends network w (cmd_wrap lib codec rand rand_error network stdin args w)
    unfolding cmd_wrap wrap_flags
    cmd_wrap-Ends network stdin args w =
        with_flags-Ends lib network (ascii "wrap")
          (wrap_flags lib codec rand rand_error network stdin) args w
          (λ p w.
            let shares = given (p.number Flag.shares) (pos 0) in
            let threshold = given (p.number Flag.threshold) (pos 0) in
            asked p w (wrap_secret shares threshold p.args stdin)
              (wrap_secret-Returns shares threshold p.args stdin))
      where
        asked :
            (p : Parsed) (w : W) (r : Result Exit Bytes)
            → Returns r
            → Ends network w (elim r [
              | err (text, code) ↦ fail w text code
              | ok secret ↦
                  expect lib 200
                    (print_wrapped lib codec rand rand_error
                      (client_flags lib p)
                      (given (p.number Flag.shares) (pos 0))
                      (given (p.number Flag.threshold) (pos 0)))
                    (call lib network
                      (client_flags lib p)
                      (ascii "POST")
                      (ascii "/v1/wrap")
                      []
                      (some (
                        lib.json.write_request secret
                          (given (p.number Flag.reads) (pos 1))
                          (given (p.text Flag.ttl) [])))
                      w)
            ])
        asked p w (err (text, code)) h = Ends.alone refl h
        asked p w (ok secret) h =
            let cf = client_flags lib p in
            let shares = given (p.number Flag.shares) (pos 0) in
            let threshold = given (p.number Flag.threshold) (pos 0) in
            expect-Ends lib 200 (print_wrapped lib codec rand rand_error cf shares threshold)
              (inl refl) (print_wrapped-IsLocal cf shares threshold) network cf (ascii "POST")
              (ascii "/v1/wrap") []
              (some (
                lib.json.write_request secret (given (p.number Flag.reads) (pos 1))
                  (given (p.text Flag.ttl) [])))
              w

cmd_server-Ends :
    {W : Type 0} (lib : ServerLib W) (network : Network W)
    → ((c : Config) (w : W) → (lib.run c w).0 ≡ w)
    → (args : List Bytes) (w : W) → Ends network w (cmd_server lib args w)
unfolding cmd_server
cmd_server-Ends lib network here args w = parsed (lib.parse_flags args)
  where
    returned :
        (printed : Bytes) (w' : _) (r : Result Bytes (Unit {0}))
        → w' ≡ w
        → Ends network w (elim r [
          | err e ↦ fail w' (printed ++ line (ascii "error: " ++ e)) exit_error
          | ok u ↦ fail w' printed exit_ok
        ])
    returned printed w' (err e) h = Ends.alone h (omega arith)
    returned printed w' (ok u) h = Ends.alone h (omega arith)

    parsed :
        (r : Result Bytes ServerFlags)
        → Ends network w (elim r [
          | err text ↦ fail w text exit_usage
          | ok f ↦
              let printed = deprecation (given f.trust_proxy false) (given f.real_ip_header []) in
              let (w', result) = lib.run (server_config f) w in
              elim result [
                | err e ↦ fail w' (printed ++ line (ascii "error: " ++ e)) exit_error
                | ok u ↦ fail w' printed exit_ok
              ]
        ])
    parsed (err text) = Ends.alone refl (omega arith)
    parsed (ok f) =
        returned (deprecation (given f.trust_proxy false) (given f.real_ip_header []))
          (lib.run (server_config f) w).0 (lib.run (server_config f) w).1 (here (server_config f) w)

module _ {W : Type 0} (lib : Client) (server_lib : ServerLib W) (codec : Codec) (rand : Rand)
    (rand_error version_text : Bytes) (network : Network W)
    (here : (c : Config) (w : W) → (server_lib.run c w).0 ≡ w) where
  run_command-Ends :
      (stdin : Stdin) (c : Command) (rest : List Bytes) (w : W)
      → Ends network w
          (run_command lib server_lib codec rand rand_error version_text network stdin c rest w)
  unfolding run_command
  run_command-Ends stdin server rest w = cmd_server-Ends server_lib network here rest w
  run_command-Ends stdin wrap rest w = cmd_wrap-Ends lib codec rand rand_error network stdin rest w
  run_command-Ends stdin unwrap rest w = cmd_unwrap-Ends lib network rest w
  run_command-Ends stdin combine rest w = cmd_combine-Ends lib network codec rest w
  run_command-Ends stdin peek rest w = cmd_peek-Ends lib network rest w
  run_command-Ends stdin revoke rest w = cmd_revoke-Ends lib network rest w
  run_command-Ends stdin status rest w = cmd_status-Ends lib network rest w
  run_command-Ends stdin version rest w = Ends.alone refl (omega arith)
  run_command-Ends stdin help rest w = Ends.alone refl (omega arith)

  -- The end of every command line, with a server that leaves the network as it is.
  pub run_io-Ends :
      (stdin : Stdin) (args : List Bytes) (w : W)
      → Ends network w
          (run_io lib server_lib codec rand rand_error version_text network stdin args w)
  unfolding run_io
  run_io-Ends stdin [] w = Ends.alone refl (omega arith)
  run_io-Ends stdin (cmd ∷ rest) w = named (lookup bytes_dec cmd commands)
    where
      named :
          (o : Option Command)
          → Ends network w (elim o [
            | some c ↦
                run_command lib server_lib codec rand rand_error version_text network stdin c rest w
            | none ↦
                fail w
                  (line (ascii "unknown command " ++ lib.print_quoted cmd) ++ (10 ∷ usage))
                  exit_usage
          ])
      named (some c) = run_command-Ends stdin c rest w
      named none = Ends.alone refl (omega arith)
