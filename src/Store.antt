-- ===== src/Store.antt =====
-- internal/store/store.go: the secrets in memory, their tombstones, and the operations on them. Each
-- operation holds the lock from start to end, so a history is a sequence of operations.
pub mod Cases
pub mod Frame
pub mod Calls
pub mod Bounds
pub mod Ownership
pub mod Valid
pub mod Shrinks
pub mod Reads
pub mod Countdown
pub mod Delivery
pub mod Handed
pub mod Leaving
pub mod Evidence
pub mod Testimony
pub mod Spec
pub mod Janitor
use secretstash.Base.{
  ℕ, zero, suc, ◌+◌, ◌-◌, ◌*◌, List, [], ◌∷◌, Option, none, some, Bool, true, false, Bytes, Assoc,
  size, lookup, insert, delete, bytes_dec, ltb, leb, if◌then◌else◌,
}
use secretstash.Base.Int.{ℤ, pos, negsuc, pred, is_nonpos}
use secretstash.Memory.{Memory, clone, wipe}

-- Nanoseconds.
abbrev pub Time : Type 0
Time = ℕ

-- 24 * time.Hour
abbrev pub day : Time
day = 86400000000000

-- t.Add(d)
abbrev pub add_time : Time → ℤ → Time
add_time t (pos d) = t + d
add_time t (negsuc d) = t - suc d

abbrev pub SecretId : Type 0
SecretId = Bytes

-- Tombstone reasons.
pub data Reason : Type 0 where
  consumed expired revoked : Reason

-- crypto.Sealed, with the address of the ciphertext.
pub record Sealed : Type 0 where
  pub lookup_id : SecretId
  pub ciphertext : ℕ
  pub salt : Bytes
  pub nonce : Bytes

pub record Entry : Type 0 where
  pub sealed : Sealed
  pub created_at : Time
  pub expires_at : Time
  pub reads_remaining : ℤ
  pub reads_total : ℤ

pub record Tombstone : Type 0 where
  pub reason : Reason
  pub at : Time
  pub expires_at : Time

pub record Limits : Type 0 where
  pub max_secrets : ℕ
  pub max_tombstones : ℕ

-- A limit that is not positive is replaced.
unfoldable pub or_default : ℤ → ℕ → ℕ
or_default (pos zero) d = d
or_default (pos (suc n)) d = suc n
or_default (negsuc n) d = d

unfoldable pub with_defaults : ℤ → ℤ → Limits
unfolding or_default
with_defaults max_secrets max_tombstones =
    let secrets = or_default max_secrets 10000 in
    record { max_secrets = secrets; max_tombstones = or_default max_tombstones (4 * secrets) }

-- The store, and the memory that its ciphertexts lie in.
pub record Store : Type 0 where
  pub entries : Assoc SecretId Entry
  pub tombs : Assoc SecretId Tombstone
  pub limits : Limits
  pub open limits use {max_secrets, max_tombstones}
  pub memory : Memory

-- New, on the two limits that were asked for and the memory of the program.
unfoldable pub new : ℤ → ℤ → Memory → Store
unfolding with_defaults
new max_secrets max_tombstones memory = record {
  entries = [];
  tombs = [];
  limits = with_defaults max_secrets max_tombstones;
  memory = memory;
}

-- A pointer and an error: nil and nil, a value, or a GoneError.
pub data Answer {ℓ} (A : Type ℓ) : Type ℓ where
  missing : Answer A
  found : A → Answer A
  gone : Reason → Time → Answer A

abbrev pub lookup_entry : SecretId → Store → Option Entry
lookup_entry id s = lookup bytes_dec id s.entries

abbrev pub lookup_tomb : SecretId → Store → Option Tombstone
lookup_tomb id s = lookup bytes_dec id s.tombs

abbrev pub set_entry : SecretId → Entry → Store → Store
set_entry id e s = record s { entries = insert bytes_dec id e s.entries }

abbrev pub drop_entry : SecretId → Store → Store
drop_entry id s = record s { entries = delete bytes_dec id s.entries }

abbrev pub drop_tomb : SecretId → Store → Store
drop_tomb id s = record s { tombs = delete bytes_dec id s.tombs }

abbrev pub wipe_entry : Entry → Store → Store
wipe_entry e s = record s { memory = wipe s.memory e.sealed.ciphertext }

abbrev pub new_entry : Time → Sealed → ℤ → ℤ → Entry
new_entry now sealed ttl reads = record {
  sealed = sealed;
  created_at = now;
  expires_at = add_time now ttl;
  reads_remaining = reads;
  reads_total = reads;
}

-- Put; `none` is ErrFull.
unfoldable pub put : Store → Time → Sealed → ℤ → ℤ → Store × Option Entry
put s now sealed ttl reads = if leb s.max_secrets (size s.entries) then (s, none) else (
  set_entry sealed.lookup_id (new_entry now sealed ttl reads) s,
  some (new_entry now sealed ttl reads),
)

-- The tombstone that tombLocked writes.
unfoldable pub tombstone : Time → Reason → Time → Tombstone
tombstone now reason original_expiry = record {
  reason = reason;
  at = elim reason [ expired ↦ original_expiry | _ ↦ now ];
  expires_at = if ltb original_expiry (now + day) then now + day else original_expiry;
}

-- tombLocked, with the time that it reads.
unfoldable pub tomb_locked : Store → Time → SecretId → Reason → Time → Store
tomb_locked s now id reason original_expiry =
    if leb s.max_tombstones (size s.tombs)
    then s
    else record s { tombs = insert bytes_dec id (tombstone now reason original_expiry) s.tombs }

-- Deletes an entry, records its fate and wipes it.
unfoldable pub bury : Store → Time → SecretId → Reason → Entry → Store
unfolding tomb_locked
bury s now id reason e = wipe_entry e (tomb_locked (drop_entry id s) now id reason e.expires_at)

-- The second half of liveLocked: what a tombstone says.
unfoldable pub check_tomb : Store → Time → SecretId → Store × Answer Entry
check_tomb s now id = elim (lookup_tomb id s) [
  | none ↦ (s, missing)
  | some t ↦ if ltb now t.expires_at then (s, gone t.reason t.at) else (drop_tomb id s, missing)
]

-- liveLocked; `later` is the time that tombLocked reads after `now`.
unfoldable pub live_locked : Store → Time → Time → SecretId → Store × Answer Entry
live_locked s now later id = elim (lookup_entry id s) [
  | none ↦ check_tomb s now id
  | some e ↦
      if ltb now e.expires_at then (s, found e) else check_tomb (bury s later id expired e) now id
]

-- Take behind liveLocked, for a live entry.
unfoldable pub take_live : Store → Time → SecretId → Entry → Store × Answer Entry
take_live s later id e =
    let e' : Entry = record e { reads_remaining = pred e.reads_remaining } in
    if is_nonpos e'.reads_remaining
    then (
      bury (record s { memory = clone s.memory e.sealed.ciphertext }) later id consumed e',
      found (record e' { sealed = record e.sealed { ciphertext = s.memory.next } }),
    )
    else (set_entry id e' s, found e')

-- Take behind liveLocked.
unfoldable pub take_answer : Time → SecretId → Store × Answer Entry → Store × Answer Entry
take_answer later id (s, missing) = (s, missing)
take_answer later id (s, gone reason at) = (s, gone reason at)
take_answer later id (s, found e) = take_live s later id e

unfoldable pub take : Store → Time → Time → SecretId → Store × Answer Entry
take s now later id = take_answer later id (live_locked s now later id)

unfoldable pub peek : Store → Time → Time → SecretId → Store × Answer Entry
peek s now later id = live_locked s now later id

-- Revoke behind liveLocked; `found` is true, `missing` is false with no error.
unfoldable pub revoke_answer : Time → SecretId → Store × Answer Entry → Store × Answer (Unit {0})
revoke_answer later id (s, missing) = (s, missing)
revoke_answer later id (s, gone reason at) = (s, gone reason at)
revoke_answer later id (s, found e) = (bury s later id revoked e, found tt)

unfoldable pub revoke : Store → Time → Time → SecretId → Store × Answer (Unit {0})
revoke s now later id = revoke_answer later id (live_locked s now later id)

unfoldable pub len : Store → ℕ
len s = size s.entries

unfoldable pub stats : Store → ℕ × ℕ
stats s = (size s.entries, size s.tombs)

-- The loops of purge, over the entries and tombstones that are left to visit; `clock` is the time
-- that tombLocked reads for each.
unfoldable pub purge_entries : Time → (SecretId → Time) → Assoc SecretId Entry → Store → Store
purge_entries now clock [] s = s
purge_entries now clock ((id, e) ∷ rest) s =
    purge_entries now clock rest
      (if ltb now e.expires_at then s else bury s (clock id) id expired e)

unfoldable pub purge_tombs : Time → Assoc SecretId Tombstone → Store → Store
purge_tombs now [] s = s
purge_tombs now ((id, t) ∷ rest) s =
    purge_tombs now rest (if ltb now t.expires_at then s else drop_tomb id s)

unfoldable pub purge : Store → Time → (SecretId → Time) → Store
purge s now clock = let s' = purge_entries now clock s.entries s in purge_tombs now s'.tombs s'
