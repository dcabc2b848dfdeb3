-- ===== src/Cli/Exit.antt =====
-- The exit codes of the client commands.
use secretstash.Base.{
  ℕ, ◌≤◌, ◌≡◌, ◌≢◌, ◌↔◌, refl, sym, ap, ◌∙◌, none, Bool, true, false, Bool-cases, inl, inr, Bytes,
  ◌++◌, arith, ◌==◌, ==_iff, if◌then◌else◌,
}
use secretstash.Base.Int.{ℤ}
use secretstash.Base.Result.{Result, ok, err, ok_inj}
use secretstash.Base.Text.{ascii}
use secretstash.Cli.{
  Network, Client, ClientFlags, Outcome, fail, bad_response, Called, call, expect, gone_exit,
  gone_code, exit_ok, exit_error, exit_gone, exit_not_found,
}
use secretstash.Cli.Commands.{print_secret, remaining, unwrap_with_token}

-- The server answered with this status.
abbrev pub Answered : {W : Type 0} → ℕ → Called W → Type 0
Answered status c = (body : Bytes) × (c.answer ≡ ok (status, body))

-- The codes of an outcome are those of the server's answer: 3 exactly for 410, and 4 exactly for 404.
pub record Tells {W : Type 0} (c : Called W) (code : ℕ) : Type 0 where
  pub is_gone : (code ≡ exit_gone) ↔ Answered 410 c
  pub is_missing : (code ≡ exit_not_found) ↔ Answered 404 c
  pub failed : (e : Bytes) → c.answer ≡ err e → code ≡ exit_error

gone_code-gone : (status : ℕ) → (gone_code status ≡ 3) ↔ (status ≡ 410)
unfolding gone_code
gone_code-gone status = ground arith

gone_code-missing : (status : ℕ) → (gone_code status ≡ 4) ↔ (status ≡ 404)
unfolding gone_code
gone_code-missing status = ground arith

status_inj :
    {s t : ℕ} {b c : Bytes} → ◌≡◌ {A = Result Bytes (ℕ × Bytes)} (ok (s, b)) (ok (t, c)) → s ≡ t
status_inj h = ap (λ p. p.0) (ok_inj h)

module _ {W : Type 0} (lib : Client) (wanted : ℕ) (next : W → Bytes → Bytes → Outcome W) where
  -- An answer with a status.
  answered-Tells :
      (w : W) (printed body : Bytes) (status : ℕ)
      → wanted ≢ 410
      → wanted ≢ 404
      → ((w : W) (p b : Bytes) → (next w p b).code ≤ 1)
      → Tells
          (record { world = w; printed = printed; answer = ok (status, body) })
          (expect lib wanted next
            (record { world = w; printed = printed; answer = ok (status, body) })).code
  unfolding expect gone_exit
  answered-Tells w printed body status g n small = elim (Bool-cases (status == wanted)) [
    | inl h ↦ rw h (record {
      is_gone = (
        λ c. absurd (omega (arith, small w printed body, c)),
        λ a. absurd (g (sym ((==_iff status wanted).0 h) ∙ status_inj a.1)),
      );
      is_missing = (
        λ c. absurd (omega (arith, small w printed body, c)),
        λ a. absurd (n (sym ((==_iff status wanted).0 h) ∙ status_inj a.1)),
      );
      failed = λ e q. cc;
    })
    | inr h ↦ rw h (record {
      is_gone = (
        λ c. (body, ap (λ s. ok (s, body)) ((gone_code-gone status).0 c)),
        λ a. (gone_code-gone status).1 (status_inj a.1),
      );
      is_missing = (
        λ c. (body, ap (λ s. ok (s, body)) ((gone_code-missing status).0 c)),
        λ a. (gone_code-missing status).1 (status_inj a.1),
      );
      failed = λ e q. cc;
    })
  ]

  pub expect-Tells :
      (w : W) (printed : Bytes) (r : Result Bytes (ℕ × Bytes))
      → wanted ≢ 410
      → wanted ≢ 404
      → ((w : W) (p b : Bytes) → (next w p b).code ≤ 1)
      → Tells
          (record { world = w; printed = printed; answer = r })
          (expect lib wanted next (record { world = w; printed = printed; answer = r })).code
  unfolding expect
  expect-Tells w printed (err e) g n small = record {
    is_gone = (λ c. absurd (omega arith), λ a. absurd (no_answer a.1));
    is_missing = (λ c. absurd (omega arith), λ a. absurd (no_answer a.1));
    failed = λ e q. refl;
  }
    where
      no_answer : {p : ℕ × Bytes} → ◌≡◌ {A = Result Bytes (ℕ × Bytes)} (err e) (ok p) → ⊥
      no_answer h = cc
  expect-Tells w printed (ok (status, body)) g n small =
      answered-Tells w printed body status g n small

module _ {W : Type 0} (lib : Client) (network : Network W) (cf : ClientFlags) where
  print_secret-code :
      (w : W) (printed body : Bytes) → (print_secret lib network cf w printed body).code ≤ 1
  unfolding print_secret
  print_secret-code w printed body = coded cf.json_out (lib.json.read_unwrapped body)
    where
      whole : Outcome W
      whole = record { world = w; stdout = body; stderr = printed; code = exit_ok }

      read : Result Bytes (Bytes × ℤ) → Outcome W
      read (err e) = fail w (printed ++ bad_response e) exit_error
      read (ok (secret, n)) = record {
        world = w;
        stdout = secret;
        stderr = printed ++ remaining lib network n;
        code = exit_ok;
      }

      coded :
          (b : Bool) (r : Result Bytes (Bytes × ℤ))
          → (if◌then◌else◌ {A = Outcome W} b whole (read r)).code ≤ 1
      coded true r = omega arith
      coded false (err e) = omega arith
      coded false (ok p) = omega arith

  -- Once its token is read, unwrap exits with 3 exactly if the server answers with 410, with 4 exactly if it
  -- answers with 404, and with 1 if its call gets no answer.
  pub unwrap_with_token-Tells :
      (token : Bytes) (w : W)
      → Tells
          (call lib network cf (ascii "POST") (ascii "/v1/unwrap") token none w)
          (unwrap_with_token lib network cf token w).code
  unfolding unwrap_with_token
  unwrap_with_token-Tells token w =
      let c = call lib network cf (ascii "POST") (ascii "/v1/unwrap") token none w in
      expect-Tells lib 200 (print_secret lib network cf) c.world c.printed c.answer (omega arith)
        (omega arith) print_secret-code
