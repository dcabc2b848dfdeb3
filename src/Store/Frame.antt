-- ===== src/Store/Frame.antt =====
-- What each operation does to the entry and the tombstone of an ID.
use secretstash.Base.{
  ◌<◌, ◌≡◌, ◌≢◌, refl, ◌∙◌, ite, if_neg, none, some, size, bytes_dec, lookup-insert, lookup-delete,
  leb, if◌then◌else◌, arith,
}
use secretstash.Memory.{clone}
use secretstash.Store.{
  Answer, Time, SecretId, Reason, consumed, expired, revoked, Entry, Store, lookup_entry,
  lookup_tomb, set_entry, drop_tomb, tombstone, bury, take, peek, revoke,
}
use secretstash.Store.Cases.{
  Fate, decrement, CheckCase, DeadCase, LiveCase, TakeCase, RevokeCase, live_locked-cases,
  take-cases, revoke-cases,
}

pub lookup_entry-bury :
    (s : Store) (now : Time) (id j : SecretId) (r : Reason) (e : Entry)
    → lookup_entry j (bury s now id r e) ≡ ite (bytes_dec id j) none (lookup_entry j s)
unfolding bury
lookup_entry-bury s now id j r e = ground (arith, lookup-delete bytes_dec id j s.entries)

-- Room for one more tombstone.
abbrev pub HasRoom : Store → Type 0
HasRoom s = size s.tombs < s.max_tombstones

pub lookup_tomb-bury :
    (s : Store) (now : Time) (id j : SecretId) (r : Reason) (e : Entry)
    → lookup_tomb j (bury s now id r e) ≡ (
        if leb s.max_tombstones (size s.tombs)
        then lookup_tomb j s
        else ite (bytes_dec id j) (some (tombstone now r e.expires_at)) (lookup_tomb j s))
unfolding bury
lookup_tomb-bury s now id j r e =
    ground (arith, lookup-insert bytes_dec id j (tombstone now r e.expires_at) s.tombs)

-- The entry and the tombstone of j are as they were.
pub record Frame (j : SecretId) (s t : Store) : Type 0 where
  pub entry : lookup_entry j t ≡ lookup_entry j s
  pub tomb : lookup_tomb j t ≡ lookup_tomb j s

pub Frame-refl : (j : SecretId) (s : Store) → Frame j s s
Frame-refl j s = record { entry = refl; tomb = refl }

pub Frame-trans : {j : SecretId} {s t u : Store} → Frame j s t → Frame j t u → Frame j s u
Frame-trans f g = record { entry = g.entry ∙ f.entry; tomb = g.tomb ∙ f.tomb }

module _ (id j : SecretId) (other : id ≢ j) where
  pub Frame-bury : (s : Store) (now : Time) (r : Reason) (e : Entry) → Frame j s (bury s now id r e)
  Frame-bury s now r e = record {
    entry = lookup_entry-bury s now id j r e ∙ if_neg (bytes_dec id j) other _ _;
    tomb = lookup_tomb-bury s now id j r e ∙ ground arith;
  }

  pub Frame-set_entry : (s : Store) (e : Entry) → Frame j s (set_entry id e s)
  Frame-set_entry s e = record {
    entry = lookup-insert bytes_dec id j e s.entries ∙ if_neg (bytes_dec id j) other _ _;
    tomb = refl;
  }

  pub Frame-drop_tomb : (s : Store) → Frame j s (drop_tomb id s)
  Frame-drop_tomb s = record {
    entry = refl;
    tomb = lookup-delete bytes_dec id j s.tombs ∙ if_neg (bytes_dec id j) other _ _;
  }

  Frame-CheckCase : {s s' : Store} {now : Time} {f : Fate} → CheckCase s now id s' f → Frame j s s'
  Frame-CheckCase {s} (CheckCase.told t l h) = Frame-refl j s
  Frame-CheckCase {s} (CheckCase.faded t l h) = Frame-drop_tomb s
  Frame-CheckCase {s} (CheckCase.unseen l) = Frame-refl j s

  Frame-DeadCase :
      {s s' : Store} {now later : Time} {f : Fate} → DeadCase s now later id s' f → Frame j s s'
  Frame-DeadCase (DeadCase.absent l c) = Frame-CheckCase c
  Frame-DeadCase {s} {later = later} (DeadCase.ran_out e l h c) =
      Frame-trans (Frame-bury s later expired e) (Frame-CheckCase c)

  Frame-LiveCase :
      {s : Store} {now later : Time} {r : Store × Answer Entry}
      → LiveCase s now later id r
      → Frame j s r.0
  Frame-LiveCase {s} (LiveCase.alive e l h) = Frame-refl j s
  Frame-LiveCase (LiveCase.dead d) = Frame-DeadCase d

  Frame-TakeCase :
      {s : Store} {now later : Time} {r : Store × Answer Entry}
      → TakeCase s now later id r
      → Frame j s r.0
  Frame-TakeCase {s} (TakeCase.read e l h z) = Frame-set_entry s _
  Frame-TakeCase {s} {later = later} (TakeCase.last_read e l h z) =
      let f =
        Frame-bury (record s { memory = clone s.memory e.sealed.ciphertext }) later consumed
          (decrement e) in
      record { entry = f.entry; tomb = f.tomb }
  Frame-TakeCase (TakeCase.refused d) = Frame-DeadCase d

  Frame-RevokeCase :
      {s : Store} {now later : Time} {r : Store × Answer (Unit {0})}
      → RevokeCase s now later id r
      → Frame j s r.0
  Frame-RevokeCase {s} {later = later} (RevokeCase.removed e l h) = Frame-bury s later revoked e
  Frame-RevokeCase (RevokeCase.refused d) = Frame-DeadCase d

  pub Frame-take : (s : Store) (now later : Time) → Frame j s (take s now later id).0
  Frame-take s now later = Frame-TakeCase (take-cases s now later id)

  pub Frame-peek : (s : Store) (now later : Time) → Frame j s (peek s now later id).0
  unfolding peek
  Frame-peek s now later = Frame-LiveCase (live_locked-cases s now later id)

  pub Frame-revoke : (s : Store) (now later : Time) → Frame j s (revoke s now later id).0
  Frame-revoke s now later = Frame-RevokeCase (revoke-cases s now later id)

  -- A Take, a Peek and a Revoke of one ID leave the entry and the tombstone of another as they were.
  pub Frame-others :
      (s : Store) (now later : Time)
      → Frame j s (take s now later id).0
        × Frame j s (peek s now later id).0
        × Frame j s (revoke s now later id).0
  Frame-others s now later =
      (Frame-take s now later, Frame-peek s now later, Frame-revoke s now later)
