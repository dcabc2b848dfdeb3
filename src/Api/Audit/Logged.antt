-- ===== src/Api/Audit/Logged.antt =====
-- The audit log of internal/api/api.go agrees with the counters.
use secretstash.Base.{
  ℕ, zero, suc, ◌≤◌, ◌≡◌, refl, [], ◌∷◌, Option, none, some, Bool-cases, inl, inr, Bytes, length,
  take, ltb, arith,
}
use secretstash.Base.Result.{Result, ok, err}
use secretstash.Shamir.Codec.{Codec}
use secretstash.Crypto.{Ciphers, Error, parse_token, lookup_id, open_box}
use secretstash.Store.{Time, SecretId, Reason, Entry, Answer, missing, found, gone, Store, revoke}
use secretstash.Store as store
use secretstash.Store.Delivery.{box_of}
use secretstash.Api.Counters.{
  Event, Label, consumed, expired, revoked, auth_fail, tamper, unknown, unregistered, Metrics,
  record_event, record_failure,
}
use secretstash.Api.{Api, ParseDuration, failed_auth, label_of, write_gone, revoke_response}
use secretstash.Api.Handlers.{
  check_token, token_from, unwrap_response, unwrap_answer, unwrap_token, handle_unwrap,
  revoke_token, handle_revoke,
}
use secretstash.Api.Audit.{
  Detail, Level, info, warn, Kind, audited, unwrap_failed, Line, id_prefix, audit, level_of,
  failed_line, tamper_line, opened_line, revoked_line, taken_line, token_line, header_line,
  unwrap_line, revoke_line,
}

-- What a line counts.
abbrev pub tally : Option Line → Metrics → Metrics
tally none m = m
tally (some line) m = elim line.kind [
  | audited event ↦ record_event event m
  | unwrap_failed reason ↦ record_failure reason m
]

-- The two failures that an operator is warned of.
abbrev pub kind_level : Kind → Level
kind_level (audited event) = info
kind_level (unwrap_failed consumed) = warn
kind_level (unwrap_failed expired) = info
kind_level (unwrap_failed revoked) = info
kind_level (unwrap_failed auth_fail) = info
kind_level (unwrap_failed tamper) = warn
kind_level (unwrap_failed unknown) = info
kind_level (unwrap_failed (unregistered s)) = info

-- A line has eight bytes of the ID at most, and its level is that of its kind.
abbrev pub IsDiscreet : Option Line → Type 0
IsDiscreet none = Unit
IsDiscreet (some line) = (length line.id_prefix ≤ 8) × (line.level ≡ kind_level line.kind)

-- The counters after a request are those before it and what its line counts.
pub record Logged (a b : Api) (line : Option Line) : Type 0 where
  pub counted : b.metrics ≡ tally line a.metrics
  pub discreet : IsDiscreet line

length-take-le : (n : ℕ) (s : Bytes) → length (take n s) ≤ n
length-take-le zero s = omega arith
length-take-le (suc n) [] = omega arith
length-take-le (suc n) (c ∷ s) = omega (arith, length-take-le n s)

length-id_prefix : (id : Bytes) → length (id_prefix id) ≤ 8
unfolding id_prefix
length-id_prefix id = elim (Bool-cases (ltb (length id) 8)) [
  | inl h ↦ rw h (ground arith)
  | inr h ↦ rw h (length-take-le 8 id)
]

Logged-audit :
    (a b : Api) (event : Event) (id : SecretId) (remote : Bytes) (detail : Detail)
    → b.metrics ≡ record_event event a.metrics
    → Logged a b (some (audit event id remote detail))
unfolding audit
Logged-audit a b event id remote detail h = record {
  counted = h;
  discreet = (length-id_prefix id, refl);
}

Logged-failed :
    (a b : Api) (reason : Label) (id : SecretId) (remote : Bytes)
    → level_of reason ≡ kind_level (unwrap_failed reason)
    → b.metrics ≡ record_failure reason a.metrics
    → Logged a b (some (failed_line reason id remote))
unfolding failed_line
Logged-failed a b reason id remote l h = record { counted = h; discreet = (length-id_prefix id, l) }

label_of-level :
    (reason : Reason) → level_of (label_of reason) ≡ kind_level (unwrap_failed (label_of reason))
unfolding label_of level_of
label_of-level Reason.consumed = refl
label_of-level Reason.expired = refl
label_of-level Reason.revoked = refl

-- A request with another store.
other_store :
    (a : Api) (s : Store) (b : Api) (line : Option Line)
    → Logged (record a { secrets = s }) b line
    → Logged a b line
other_store a s b line k = record { counted = k.counted; discreet = k.discreet }

module _ (codec : Codec) (ciphers : Ciphers) (parse : ParseDuration) where
  opened-Logged :
      (a : Api) (id : SecretId) (ip : Bytes) (e : Entry) (r : Result Error Bytes)
      → Logged a (unwrap_response codec ciphers parse a e r).0 (some (opened_line id ip e r))
  unfolding unwrap_response opened_line tamper_line
  opened-Logged a id ip e (err x) = record {
    counted = refl;
    discreet = (length-id_prefix id, refl);
  }
  opened-Logged a id ip e (ok plaintext) = Logged-audit a _ Event.unwrap id ip _ refl

  taken-Logged :
      (a : Api) (now : Time) (id : SecretId) (ip raw : Bytes) (answer : Answer Entry)
      → Logged a
          (unwrap_answer codec ciphers parse a now ip raw answer).0
          (some (taken_line codec ciphers a.secrets id raw ip answer))
  unfolding unwrap_answer write_gone failed_auth taken_line level_of
  taken-Logged a now id ip raw missing = Logged-failed a _ unknown id ip refl refl
  taken-Logged a now id ip raw (gone reason at) =
      Logged-failed a _ (label_of reason) id ip (label_of-level reason) refl
  taken-Logged a now id ip raw (found e) =
      opened-Logged a id ip e (open_box codec ciphers raw (box_of a.secrets e))

  revoked-Logged :
      (a : Api) (now : Time) (id : SecretId) (ip : Bytes) (answer : Answer (Unit {0}))
      → Logged a (revoke_response now ip a answer).0 (some (revoked_line id ip answer))
  unfolding revoke_response write_gone failed_auth revoked_line level_of
  revoked-Logged a now id ip missing = Logged-failed a _ unknown id ip refl refl
  revoked-Logged a now id ip (gone reason at) =
      Logged-failed a _ (label_of reason) id ip (label_of-level reason) refl
  revoked-Logged a now id ip (found u) = Logged-audit a _ Event.revoke id ip _ refl

  handle_unwrap-Logged :
      (a : Api) (now later : Time) (ip token : Bytes)
      → Logged a
          (handle_unwrap codec ciphers parse a now later ip token).0
          (unwrap_line codec ciphers a.secrets now later ip token)
  unfolding handle_unwrap token_from unwrap_token unwrap_line header_line check_token token_line
      failed_auth level_of
  handle_unwrap-Logged a now later ip [] = record { counted = refl; discreet = tt }
  handle_unwrap-Logged a now later ip (c ∷ cs) = parsed (parse_token codec (c ∷ cs))
    where
      parsed :
          (p : Result Error Bytes)
          → Logged a
              (unwrap_token codec ciphers parse a now later ip
                (check_token codec ciphers parse a now ip p)).0
              (token_line codec ciphers ip
                (λ raw id.
                  let (s', answer) = store.take a.secrets now later id in
                  some (taken_line codec ciphers s' id raw ip answer))
                p)
      parsed (err e) = Logged-failed a _ auth_fail [] ip refl refl
      parsed (ok raw) =
          let id = lookup_id codec ciphers raw in
          let r = store.take a.secrets now later id in
          other_store a r.0 _ _ (taken-Logged (record a { secrets = r.0 }) later id ip raw r.1)

  handle_revoke-Logged :
      (a : Api) (now later : Time) (ip token : Bytes)
      → Logged a
          (handle_revoke codec ciphers parse a now later ip token).0
          (revoke_line codec ciphers a.secrets now later ip token)
  unfolding handle_revoke token_from revoke_token revoke_line header_line check_token token_line
      failed_auth level_of
  handle_revoke-Logged a now later ip [] = record { counted = refl; discreet = tt }
  handle_revoke-Logged a now later ip (c ∷ cs) = parsed (parse_token codec (c ∷ cs))
    where
      parsed :
          (p : Result Error Bytes)
          → Logged a
              (revoke_token codec ciphers parse a now later ip
                (check_token codec ciphers parse a now ip p)).0
              (token_line codec ciphers ip
                (λ raw id. some (revoked_line id ip (revoke a.secrets now later id).1))
                p)
      parsed (err e) = Logged-failed a _ auth_fail [] ip refl refl
      parsed (ok raw) =
          let id = lookup_id codec ciphers raw in
          let r = revoke a.secrets now later id in
          other_store a r.0 _ _ (revoked-Logged (record a { secrets = r.0 }) later id ip r.1)

  -- A request to unwrap or to revoke counts what its line of the audit log says, and nothing without a line.
  -- The line has eight bytes of the lookup ID at most; it is a warning if its reason is `consumed` or
  -- `tamper`, and else an information.
  pub handlers-Logged :
      (a : Api) (now later : Time) (ip token : Bytes)
      → Logged a
          (handle_unwrap codec ciphers parse a now later ip token).0
          (unwrap_line codec ciphers a.secrets now later ip token)
        × Logged a
            (handle_revoke codec ciphers parse a now later ip token).0
            (revoke_line codec ciphers a.secrets now later ip token)
  handlers-Logged a now later ip token =
      (handle_unwrap-Logged a now later ip token, handle_revoke-Logged a now later ip token)
