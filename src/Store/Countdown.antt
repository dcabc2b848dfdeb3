-- ===== src/Store/Countdown.antt =====
-- A secret with N reads left can be read N times, and is gone after that.
use secretstash.Base.{
  ℕ, zero, suc, ◌<◌, ◌≡◌, refl, ap, ap₂, ◌∙◌, if_pos, List, [], ◌∷◌, map, Option, none, some, true,
  false, All, length, bytes_dec, lookup-insert, arith, lt→ltb,
}
use secretstash.Base.Int.{ℤ, pos, pred, is_nonpos}
use secretstash.Store.{
  Answer, missing, found, gone, Time, SecretId, consumed, Entry, Store, lookup_entry, set_entry,
  live_locked, take_live, take_answer, take,
}
use secretstash.Store.Cases.{decrement, detach, burn}
use secretstash.Store.Frame.{lookup_entry-bury}

-- A live entry is found.
pub live_locked_alive :
    (s : Store) (now later : Time) (id : SecretId) (e : Entry)
    → lookup_entry id s ≡ some e
    → now < e.expires_at
    → live_locked s now later id ≡ (s, found e)
unfolding live_locked
live_locked_alive s now later id e l h = rw (l, live_locked) (rw (lt→ltb now e.expires_at h) refl)

pub take_more :
    (s : Store) (now later : Time) (id : SecretId) (e : Entry)
    → lookup_entry id s ≡ some e
    → now < e.expires_at
    → is_nonpos (pred e.reads_remaining) ≡ false
    → take s now later id ≡ (set_entry id (decrement e) s, found (decrement e))
unfolding take take_answer take_live
take_more s now later id e l h z =
    ap (take_answer later id) (live_locked_alive s now later id e l h) ∙ rw z refl

pub take_last :
    (s : Store) (now later : Time) (id : SecretId) (e : Entry)
    → lookup_entry id s ≡ some e
    → now < e.expires_at
    → is_nonpos (pred e.reads_remaining) ≡ true
    → take s now later id ≡ (burn s later id e, found (detach s (decrement e)))
unfolding take take_answer take_live
take_last s now later id e l h z =
    ap (take_answer later id) (live_locked_alive s now later id e l h) ∙ rw z refl

-- Takes of one ID in turn, each with its two readings of the clock.
unfoldable pub take_all : SecretId → Store → List (Time × Time) → Store × List (Answer Entry)
take_all id s [] = (s, [])
take_all id s ((now, later) ∷ ts) =
    let (s', a) = take s now later id in
    let (s'', answers) = take_all id s' ts in (s'', a ∷ answers)

-- The counter that a reader is told.
abbrev pub told : Answer Entry → Option ℤ
told missing = none
told (found e) = some e.reads_remaining
told (gone r t) = none

-- n, n - 1, …, 0.
abbrev pub countdown : ℕ → List (Option ℤ)
countdown zero = some (pos zero) ∷ []
countdown (suc n) = some (pos (suc n)) ∷ countdown n

pub lookup_entry-set_entry :
    (id : SecretId) (e : Entry) (s : Store) → lookup_entry id (set_entry id e s) ≡ some e
lookup_entry-set_entry id e s =
    lookup-insert bytes_dec id id e s.entries ∙ if_pos (bytes_dec id id) refl _ _

pub lookup_entry-burn :
    (s : Store) (later : Time) (id : SecretId) (e : Entry)
    → lookup_entry id (burn s later id e) ≡ none
lookup_entry-burn s later id e =
    lookup_entry-bury _ later id id consumed (decrement e) ∙ if_pos (bytes_dec id id) refl _ _

-- While it has not expired, a secret with n + 1 reads left answers the next n + 1 takes, with the
-- counters n, …, 0, and then has no entry.
pub take_all-countdown :
    (n : ℕ) (id : SecretId) (s : Store) (e : Entry) (ts : List (Time × Time))
    → lookup_entry id s ≡ some e
    → e.reads_remaining ≡ pos (suc n)
    → length ts ≡ suc n
    → All (λ t. t.0 < e.expires_at) ts
    → (map told (take_all id s ts).1 ≡ countdown n) × (lookup_entry id (take_all id s ts).0 ≡ none)
unfolding take_all
take_all-countdown n id s e [] l r h a = absurd (omega arith)
take_all-countdown zero id s e ((now, later) ∷ []) l r h a =
    rw (take_last s now later id e l a.0 (ap (λ i. is_nonpos (pred i)) r))
      (ap (λ i. some (pred i) ∷ []) r, lookup_entry-burn s later id e)
take_all-countdown zero id s e (t ∷ u ∷ ts) l r h a = absurd (omega arith)
take_all-countdown (suc n) id s e ((now, later) ∷ ts) l r h a =
    rw (take_more s now later id e l a.0 (ap (λ i. is_nonpos (pred i)) r)) (
      let ih =
        take_all-countdown n id (set_entry id (decrement e) s) (decrement e) ts
          (lookup_entry-set_entry id (decrement e) s) (ap pred r) (omega arith) a.1 in
      (ap₂ (λ i (rest : List (Option ℤ)). some (pred i) ∷ rest) r ih.0, ih.1))
