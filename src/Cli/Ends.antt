-- ===== src/Cli/Ends.antt =====
-- How a client command ends: by itself, or with the answer to one request.
use secretstash.Base.{
  ℕ, ◌≤◌, ◌≡◌, ◌≢◌, refl, ◌∙◌, ◌⊎◌, inl, inr, none, some, Option, [], Bool, true, false, Bool-cases,
  Bytes, ◌++◌, take, arith, ◌==◌, ==_iff, if◌then◌else◌,
}
use secretstash.Base.Result.{Result, ok, err}
use secretstash.Base.Text.{trim_slashes}
use secretstash.Cli.{
  Network, Client, ClientFlags, Outgoing, Outcome, body_max, read_answer, warning, send, call,
  expect, gone_exit, gone_code, exit_error, exit_gone, exit_not_found,
}

-- What an exit code says of the answer to the request.
pub data Reports : Result Bytes (ℕ × Bytes) → ℕ → Type 0 where
  unanswered : {e : Bytes} {code : ℕ} → code ≡ exit_error → Reports (err e) code
  gone :
      {status : ℕ} {body : Bytes} {code : ℕ}
      → status ≡ 410
      → code ≡ exit_gone
      → Reports (ok (status, body)) code
  missing :
      {status : ℕ} {body : Bytes} {code : ℕ}
      → status ≡ 404
      → code ≡ exit_not_found
      → Reports (ok (status, body)) code
  refused :
      {status : ℕ} {body : Bytes} {code : ℕ}
      → status ≢ 410
      → status ≢ 404
      → code ≡ exit_error
      → Reports (ok (status, body)) code
  answered :
      {status : ℕ} {body : Bytes} {code : ℕ}
      → (status ≡ 200) ⊎ (status ≡ 204)
      → code ≤ 1
      → Reports (ok (status, body)) code

-- The end of a command that found the server in this state.
pub data Ends {W : Type 0} (network : Network W) (w : W) (o : Outcome W) : Type 0 where
  alone : o.world ≡ w → o.code ≤ 2 → Ends network w o
  asked :
      (out : Outgoing)
      → o.world ≡ (network w out).0
      → Reports (network w out).1 o.code
      → Ends network w o

-- A step that calls nobody, with success or exit code 1.
abbrev pub IsLocal : {W : Type 0} → W → Outcome W → Type 0
IsLocal w o = (o.world ≡ w) × (o.code ≤ 1)

pub if_intro {ℓ} :
    {A : Type ℓ} (P : A → Type 0) (b : Bool) (x y : A) → P x → P y → P (if b then x else y)
if_intro P true x y h k = h
if_intro P false x y h k = k

gone_code-Reports : (status : ℕ) (body : Bytes) → Reports (ok (status, body)) (gone_code status)
unfolding gone_code
gone_code-Reports status body = elim (Bool-cases (status == 410)) [
  | inl h ↦ rw h (Reports.gone ((==_iff status 410).0 h) refl)
  | inr h ↦ elim (Bool-cases (status == 404)) [
    | inl k ↦ rw (h, k) (Reports.missing ((==_iff status 404).0 k) refl)
    | inr k ↦ rw (h, k) (Reports.refused (ground (arith, h)) (ground (arith, k)) refl)
  ]
]

module _ {W : Type 0} (lib : Client) (wanted : ℕ) (next : W → Bytes → Bytes → Outcome W)
    (success : (wanted ≡ 200) ⊎ (wanted ≡ 204))
    (local : (w : W) (printed body : Bytes) → IsLocal w (next w printed body)) where
  -- The command behind an answer.
  pub expect-Reports :
      (w : W) (printed : Bytes) (a : Result Bytes (ℕ × Bytes))
      → ((expect lib wanted next
            (record { world = w; printed = printed; answer = read_answer a })).world
          ≡ w)
        × Reports a
            (expect lib wanted next
              (record { world = w; printed = printed; answer = read_answer a })).code
  unfolding expect gone_exit
  expect-Reports w printed (err e) = (refl, Reports.unanswered refl)
  expect-Reports w printed (ok (status, body)) = elim (Bool-cases (status == wanted)) [
    | inl h ↦
        let e = (==_iff status wanted).0 h in
        let (same, small) = local w printed (take body_max body) in
        rw h (
          same,
          Reports.answered (elim success [ inl p ↦ inl (e ∙ p) | inr p ↦ inr (e ∙ p) ]) small,
        )
    | inr h ↦ rw h (refl, gone_code-Reports status body)
  ]

  module _ (network : Network W) (cf : ClientFlags) (method path token : Bytes) where
    send-Ends :
        (body : Option Bytes) (w : W)
        → Ends network w (expect lib wanted next (send lib network cf method path token body w))
    unfolding send expect
    send-Ends body w = requested (lib.new_request method (trim_slashes cf.addr ++ path))
      where
        out : Outgoing
        out = record {
          method = method;
          url = trim_slashes cf.addr ++ path;
          skip_verify = cf.skip_verify;
          token = token;
          body = body;
        }

        requested :
            (r : Result Bytes (Unit {0}))
            → Ends network w (
                expect lib wanted next (elim r [
                  | err e ↦ record { world = w; printed = []; answer = err e }
                  | ok u ↦ record {
                    world = (network w out).0;
                    printed = warning cf.skip_verify;
                    answer = read_answer (network w out).1;
                  }
                ]))
        requested (err e) = Ends.alone refl (omega arith)
        requested (ok u) =
            let (world, reports) =
              expect-Reports (network w out).0 (warning cf.skip_verify) (network w out).1 in
            Ends.asked out world reports

    -- A command that makes one call and prints what it says.
    pub expect-Ends :
        (body : Option (Result Bytes Bytes)) (w : W)
        → Ends network w (expect lib wanted next (call lib network cf method path token body w))
    unfolding call expect
    expect-Ends none w = send-Ends none w
    expect-Ends (some (err e)) w = Ends.alone refl (omega arith)
    expect-Ends (some (ok body)) w = send-Ends (some body) w
