-- ===== src/Store/Cases.antt =====
-- The branches of liveLocked, Take and Revoke as data, each with what it found.
use secretstash.Base.{
  ◌≤◌, ◌<◌, ◌≡◌, refl, Option, none, some, true, false, Bool-cases, Option-cases, inl, inr, arith,
  ltb, ltb→lt,
}
use secretstash.Base.Int.{pred, is_nonpos}
use secretstash.Memory.{clone}
use secretstash.Store.{
  Time, SecretId, Reason, consumed, expired, revoked, Entry, Tombstone, Store, Answer, missing,
  found, gone, lookup_entry, lookup_tomb, set_entry, drop_tomb, bury, check_tomb, live_locked,
  take_live, take_answer, take, revoke_answer, revoke,
}

-- Nothing, or a GoneError.
abbrev pub Fate : Type 0
Fate = Option (Reason × Time)

abbrev pub refusal {ℓ} : {A : Type ℓ} → Fate → Answer A
refusal none = missing
refusal (some (reason, at)) = gone reason at

pub data CheckCase (s : Store) (now : Time) (id : SecretId) : Store → Fate → Type 0 where
  told :
      (t : Tombstone)
      → lookup_tomb id s ≡ some t
      → now < t.expires_at
      → CheckCase s now id s (some (t.reason, t.at))
  faded :
      (t : Tombstone)
      → lookup_tomb id s ≡ some t
      → t.expires_at ≤ now
      → CheckCase s now id (drop_tomb id s) none
  unseen : lookup_tomb id s ≡ none → CheckCase s now id s none

-- No live entry.
pub data DeadCase (s : Store) (now later : Time) (id : SecretId) : Store → Fate → Type 0 where
  absent :
      {s' : Store} {f : Fate}
      → lookup_entry id s ≡ none
      → CheckCase s now id s' f
      → DeadCase s now later id s' f
  ran_out :
      {s' : Store} {f : Fate} (e : Entry)
      → lookup_entry id s ≡ some e
      → e.expires_at ≤ now
      → CheckCase (bury s later id expired e) now id s' f
      → DeadCase s now later id s' f

pub data LiveCase (s : Store) (now later : Time) (id : SecretId)
    : Store × Answer Entry → Type 0 where
  alive :
      (e : Entry)
      → lookup_entry id s ≡ some e
      → now < e.expires_at
      → LiveCase s now later id (s, found e)
  dead :
      {s' : Store} {f : Fate}
      → DeadCase s now later id s' f
      → LiveCase s now later id (s', refusal f)

-- The entry after one more read.
abbrev pub decrement : Entry → Entry
decrement e = record e { reads_remaining = pred e.reads_remaining }

-- The entry that the last read hands out, with its own copy of the ciphertext.
abbrev pub detach : Store → Entry → Entry
detach s e = record e { sealed = record e.sealed { ciphertext = s.memory.next } }

-- The store after the last read.
abbrev pub burn : Store → Time → SecretId → Entry → Store
burn s later id e =
    bury (record s { memory = clone s.memory e.sealed.ciphertext }) later id consumed (decrement e)

pub data TakeCase (s : Store) (now later : Time) (id : SecretId)
    : Store × Answer Entry → Type 0 where
  read :
      (e : Entry)
      → lookup_entry id s ≡ some e
      → now < e.expires_at
      → is_nonpos (pred e.reads_remaining) ≡ false
      → TakeCase s now later id (set_entry id (decrement e) s, found (decrement e))
  last_read :
      (e : Entry)
      → lookup_entry id s ≡ some e
      → now < e.expires_at
      → is_nonpos (pred e.reads_remaining) ≡ true
      → TakeCase s now later id (burn s later id e, found (detach s (decrement e)))
  refused :
      {s' : Store} {f : Fate}
      → DeadCase s now later id s' f
      → TakeCase s now later id (s', refusal f)

pub data RevokeCase (s : Store) (now later : Time) (id : SecretId)
    : Store × Answer (Unit {0}) → Type 0 where
  removed :
      (e : Entry)
      → lookup_entry id s ≡ some e
      → now < e.expires_at
      → RevokeCase s now later id (bury s later id revoked e, found tt)
  refused :
      {s' : Store} {f : Fate}
      → DeadCase s now later id s' f
      → RevokeCase s now later id (s', refusal f)

-- A check of a tombstone takes one of its branches.
check_tomb-cases :
    (s : Store) (now : Time) (id : SecretId)
    → (s' : Store) × (f : Fate) × (check_tomb s now id ≡ (s', refusal f)) × CheckCase s now id s' f
unfolding check_tomb
check_tomb-cases s now id = elim (Option-cases (lookup_tomb id s)) [
  | inl e ↦ (s, none, rw (e, check_tomb) refl, CheckCase.unseen e)
  | inr (t, e) ↦ elim (Bool-cases (ltb now t.expires_at)) [
    | inl h ↦ (
      s,
      some (t.reason, t.at),
      rw (e, check_tomb) (rw h refl),
      CheckCase.told t e (ltb→lt _ _ h),
    )
    | inr h ↦
        (drop_tomb id s, none, rw (e, check_tomb) (rw h refl), CheckCase.faded t e (ground arith))
  ]
]

pub live_locked-cases :
    (s : Store) (now later : Time) (id : SecretId)
    → LiveCase s now later id (live_locked s now later id)
unfolding live_locked
live_locked-cases s now later id = elim (Option-cases (lookup_entry id s)) [
  | inl e ↦
      let (s', f, eq, c) = check_tomb-cases s now id in
      rw (e, live_locked) (rw eq (LiveCase.dead (DeadCase.absent e c)))
  | inr (x, e) ↦ elim (Bool-cases (ltb now x.expires_at)) [
    | inl h ↦ rw (e, live_locked) (rw h (LiveCase.alive x e (ltb→lt _ _ h)))
    | inr h ↦
        let (s', f, eq, c) = check_tomb-cases (bury s later id expired x) now id in
        rw (e, live_locked) (rw h (rw eq (LiveCase.dead (DeadCase.ran_out x e (ground arith) c))))
  ]
]

take_answer-cases :
    (s : Store) (now later : Time) (id : SecretId) {r : Store × Answer Entry}
    → LiveCase s now later id r
    → TakeCase s now later id (take_answer later id r)
unfolding take_answer take_live
take_answer-cases s now later id (LiveCase.dead {f = none} d) = TakeCase.refused d
take_answer-cases s now later id (LiveCase.dead {f = some (reason, at)} d) = TakeCase.refused d
take_answer-cases s now later id (LiveCase.alive e l h) =
    elim (Bool-cases (is_nonpos (pred e.reads_remaining))) [
      | inl z ↦ rw z (TakeCase.last_read e l h z)
      | inr z ↦ rw z (TakeCase.read e l h z)
    ]

pub take-cases :
    (s : Store) (now later : Time) (id : SecretId) → TakeCase s now later id (take s now later id)
unfolding take
take-cases s now later id = take_answer-cases s now later id (live_locked-cases s now later id)

revoke_answer-cases :
    (s : Store) (now later : Time) (id : SecretId) {r : Store × Answer Entry}
    → LiveCase s now later id r
    → RevokeCase s now later id (revoke_answer later id r)
unfolding revoke_answer
revoke_answer-cases s now later id (LiveCase.dead {f = none} d) = RevokeCase.refused d
revoke_answer-cases s now later id (LiveCase.dead {f = some (reason, at)} d) = RevokeCase.refused d
revoke_answer-cases s now later id (LiveCase.alive e l h) = RevokeCase.removed e l h

pub revoke-cases :
    (s : Store) (now later : Time) (id : SecretId)
    → RevokeCase s now later id (revoke s now later id)
unfolding revoke
revoke-cases s now later id = revoke_answer-cases s now later id (live_locked-cases s now later id)
