-- ===== src/Store/Evidence.antt =====
-- The evidence that a secret leaves: who asks for it again is told its fate.
use secretstash.Base.{
  ◌+◌, ◌<◌, ◌≤◌, ◌≡◌, refl, ap, ◌∙◌, none, some, true, false, if_pos, bytes_dec, size, leb, lt→ltb,
  arith,
}
use secretstash.Base.Int.{pred, is_nonpos}
use secretstash.Store.{
  gone, Time, day, SecretId, Reason, consumed, revoked, Entry, Tombstone, Store, lookup_entry,
  lookup_tomb, tombstone, bury, check_tomb, live_locked, take, take_answer, revoke, revoke_answer,
}
use secretstash.Memory.{clone}
use secretstash.Store.Cases.{decrement}
use secretstash.Store.Countdown.{live_locked_alive, take_last}
use secretstash.Store.Frame.{HasRoom, lookup_entry-bury, lookup_tomb-bury}

pub le-tombstone :
    (now : Time) (r : Reason) (expiry : Time) → now + day ≤ (tombstone now r expiry).expires_at
unfolding tombstone
le-tombstone now r expiry = ground arith

pub lookup_tomb-bury_self :
    (s : Store) (at : Time) (id : SecretId) (r : Reason) (e : Entry)
    → HasRoom s
    → lookup_tomb id (bury s at id r e) ≡ some (tombstone at r e.expires_at)
lookup_tomb-bury_self s at id r e room =
    lookup_tomb-bury s at id id r e ∙ rw (full) (if_pos (bytes_dec id id) refl _ _)
  where
    full : leb s.max_tombstones (size s.tombs) ≡ false
    full = ground (arith, room)

pub lookup_entry-bury_self :
    (s : Store) (at : Time) (id : SecretId) (r : Reason) (e : Entry)
    → lookup_entry id (bury s at id r e) ≡ none
lookup_entry-bury_self s at id r e =
    lookup_entry-bury s at id id r e ∙ if_pos (bytes_dec id id) refl _ _

pub live_locked_told :
    (s : Store) (now later : Time) (id : SecretId) (t : Tombstone)
    → lookup_entry id s ≡ none
    → lookup_tomb id s ≡ some t
    → now < t.expires_at
    → live_locked s now later id ≡ (s, gone t.reason t.at)
unfolding live_locked check_tomb
live_locked_told s now later id t l k h =
    rw (l, live_locked) (rw (k, check_tomb) (rw (lt→ltb now t.expires_at h) refl))

-- A secret that was burned while there was room for its tombstone is reported as gone for a day.
live_locked-bury :
    (s : Store) (at now later : Time) (id : SecretId) (r : Reason) (e : Entry)
    → HasRoom s
    → now < at + day
    → live_locked (bury s at id r e) now later id
      ≡ (bury s at id r e, gone r (tombstone at r e.expires_at).at)
unfolding tombstone
live_locked-bury s at now later id r e room h =
    live_locked_told (bury s at id r e) now later id (tombstone at r e.expires_at)
      (lookup_entry-bury_self s at id r e) (lookup_tomb-bury_self s at id r e room)
      (omega (arith, le-tombstone at r e.expires_at))

-- Who takes a secret after its last read, and within a day, is told that it was consumed and when,
-- if there was room for the tombstone; the store stays as it was.
pub take-take_last :
    (s : Store) (now later now' later' : Time) (id : SecretId) (e : Entry)
    → HasRoom s
    → lookup_entry id s ≡ some e
    → now < e.expires_at
    → is_nonpos (pred e.reads_remaining) ≡ true
    → now' < later + day
    → take (take s now later id).0 now' later' id ≡ ((take s now later id).0, gone consumed later)
unfolding take take_answer tombstone
take-take_last s now later now' later' id e room l h z h' = rw (take_last s now later id e l h z) (
    ap (take_answer later' id) (
      live_locked-bury (record s { memory = clone s.memory e.sealed.ciphertext }) later now' later'
        id consumed (decrement e) room h'))

-- Who takes a secret that was revoked, within a day, is told so and when, if there was room for the
-- tombstone; the store stays as it was.
pub take-revoke :
    (s : Store) (now later now' later' : Time) (id : SecretId) (e : Entry)
    → HasRoom s
    → lookup_entry id s ≡ some e
    → now < e.expires_at
    → now' < later + day
    → take (revoke s now later id).0 now' later' id
      ≡ ((revoke s now later id).0, gone revoked later)
unfolding take take_answer revoke revoke_answer tombstone
take-revoke s now later now' later' id e room l h h' =
    rw (live_locked_alive s now later id e l h)
      (ap (take_answer later' id) (live_locked-bury s later now' later' id revoked e room h'))
