-- ===== src/Store/Valid.antt =====
-- The invariant of the store, kept by every operation.
use secretstash.Base.{
  refl, List, [], ◌∷◌, Bool, true, false, Assoc, lookup, ltb, if◌then◌else◌, arith,
}
use secretstash.Base.Int.{ℤ}
use secretstash.Memory.{Memory, alloc, clone}
use secretstash.Store.{
  Answer, Time, SecretId, Reason, consumed, expired, revoked, Entry, Tombstone, Store, new,
  drop_tomb, bury, take, peek, purge_entries, purge_tombs, purge,
}
use secretstash.Store.Cases.{
  Fate, decrement, CheckCase, DeadCase, LiveCase, TakeCase, RevokeCase, live_locked-cases,
  take-cases, revoke-cases,
}
use secretstash.Store.Calls.{
  Call, puts, takes, peeks, revokes, purges, seal_into, sealed_of, step, run,
}
use secretstash.Store.Bounds.{
  IsBounded, bury-IsBounded, drop_tomb-IsBounded, set_entry-IsBounded, memory-IsBounded,
  put-IsBounded,
}
use secretstash.Store.Ownership.{
  Keeps, Keeps-refl, Keeps-trans, Keeps-bury, Keeps-set_entry, Keeps-clone, Keeps-drop_tomb, Owns,
  Owns-Keeps, put-Owns,
}

-- What every operation but Put does to the store: it keeps the bounds, and makes up no entry.
pub record Steps (s t : Store) : Type 0 where
  pub bounded : IsBounded s → IsBounded t
  pub keeps : Keeps s t

Steps-refl : (s : Store) → Steps s s
Steps-refl s = record { bounded = λ b. b; keeps = Keeps-refl s }

Steps-trans : {s t u : Store} → Steps s t → Steps t u → Steps s u
Steps-trans p q = record {
  bounded = λ b. q.bounded (p.bounded b);
  keeps = Keeps-trans p.keeps q.keeps;
}

pub Steps-bury :
    (s : Store) (now : Time) (id : SecretId) (r : Reason) (e : Entry) → Steps s (bury s now id r e)
Steps-bury s now id r e = record {
  bounded = bury-IsBounded s now id r e;
  keeps = Keeps-bury s now id r e;
}

Steps-drop_tomb : (s : Store) (id : SecretId) → Steps s (drop_tomb id s)
Steps-drop_tomb s id = record { bounded = drop_tomb-IsBounded s id; keeps = Keeps-drop_tomb s id }

module _ (id : SecretId) where
  Steps-CheckCase : {s s' : Store} {now : Time} {f : Fate} → CheckCase s now id s' f → Steps s s'
  Steps-CheckCase {s} (CheckCase.told t l h) = Steps-refl s
  Steps-CheckCase {s} (CheckCase.faded t l h) = Steps-drop_tomb s id
  Steps-CheckCase {s} (CheckCase.unseen l) = Steps-refl s

  pub Steps-DeadCase :
      {s s' : Store} {now later : Time} {f : Fate} → DeadCase s now later id s' f → Steps s s'
  Steps-DeadCase (DeadCase.absent l c) = Steps-CheckCase c
  Steps-DeadCase {s} {later = later} (DeadCase.ran_out e l h c) =
      Steps-trans (Steps-bury s later id expired e) (Steps-CheckCase c)

  pub Steps-LiveCase :
      {s : Store} {now later : Time} {r : Store × Answer Entry}
      → LiveCase s now later id r
      → Steps s r.0
  Steps-LiveCase {s} (LiveCase.alive e l h) = Steps-refl s
  Steps-LiveCase (LiveCase.dead d) = Steps-DeadCase d

  pub Steps-TakeCase :
      {s : Store} {now later : Time} {r : Store × Answer Entry}
      → TakeCase s now later id r
      → Steps s r.0
  Steps-TakeCase {s} (TakeCase.read e l h z) = record {
    bounded = set_entry-IsBounded s id e (decrement e) l;
    keeps = Keeps-set_entry s id e (decrement e) l refl;
  }
  Steps-TakeCase {s} {later = later} (TakeCase.last_read e l h z) =
      Steps-trans
        (record {
          bounded = memory-IsBounded s (clone s.memory e.sealed.ciphertext);
          keeps = Keeps-clone s e.sealed.ciphertext;
        })
        (Steps-bury _ later id consumed (decrement e))
  Steps-TakeCase (TakeCase.refused d) = Steps-DeadCase d

  pub Steps-RevokeCase :
      {s : Store} {now later : Time} {r : Store × Answer (Unit {0})}
      → RevokeCase s now later id r
      → Steps s r.0
  Steps-RevokeCase {s} {later = later} (RevokeCase.removed e l h) = Steps-bury s later id revoked e
  Steps-RevokeCase (RevokeCase.refused d) = Steps-DeadCase d

Steps-if : (b : Bool) {s t u : Store} → Steps s t → Steps s u → Steps s (if b then t else u)
Steps-if true p q = p
Steps-if false p q = q

Steps-purge_entries :
    (now : Time) (clock : SecretId → Time) (m : Assoc SecretId Entry) (s : Store)
    → Steps s (purge_entries now clock m s)
unfolding purge_entries
Steps-purge_entries now clock [] s = Steps-refl s
Steps-purge_entries now clock ((id, e) ∷ m) s =
    Steps-trans
      (Steps-if (ltb now e.expires_at) (Steps-refl s) (Steps-bury s (clock id) id expired e))
      (Steps-purge_entries now clock m _)

Steps-purge_tombs :
    (now : Time) (m : Assoc SecretId Tombstone) (s : Store) → Steps s (purge_tombs now m s)
unfolding purge_tombs
Steps-purge_tombs now [] s = Steps-refl s
Steps-purge_tombs now ((id, t) ∷ m) s =
    Steps-trans (Steps-if (ltb now t.expires_at) (Steps-refl s) (Steps-drop_tomb s id))
      (Steps-purge_tombs now m _)

pub Steps-purge : (s : Store) (now : Time) (clock : SecretId → Time) → Steps s (purge s now clock)
unfolding purge
Steps-purge s now clock =
    Steps-trans (Steps-purge_entries now clock s.entries s) (Steps-purge_tombs now _ _)

pub record IsValid (s : Store) : Type 0 where
  pub bounded : IsBounded s
  pub owns : Owns s

IsValid-Steps : {s t : Store} → Steps s t → IsValid s → IsValid t
IsValid-Steps p v = record { bounded = p.bounded v.bounded; owns = Owns-Keeps p.keeps v.owns }

-- Each operation keeps the invariant.
pub step-IsValid : (s : Store) (c : Call) → IsValid s → IsValid (step s c)
unfolding step
step-IsValid s (puts now f ttl reads) v = record {
  bounded =
      put-IsBounded (seal_into s f) now (sealed_of s f) ttl reads
        (memory-IsBounded s (alloc s.memory f.ciphertext) v.bounded);
  owns = put-Owns s now f ttl reads v.owns;
}
step-IsValid s (takes now later id) v =
    IsValid-Steps (Steps-TakeCase id (take-cases s now later id)) v
step-IsValid s (peeks now later id) v =
    unfold peek in IsValid-Steps (Steps-LiveCase id (live_locked-cases s now later id)) v
step-IsValid s (revokes now later id) v =
    IsValid-Steps (Steps-RevokeCase id (revoke-cases s now later id)) v
step-IsValid s (purges now clock) v = IsValid-Steps (Steps-purge s now clock) v

pub take-IsValid :
    (s : Store) (now later : Time) (id : SecretId) → IsValid s → IsValid (take s now later id).0
take-IsValid s now later id v = IsValid-Steps (Steps-TakeCase id (take-cases s now later id)) v

pub purge_entries-IsValid :
    (now : Time) (clock : SecretId → Time) (m : Assoc SecretId Entry) (s : Store)
    → IsValid s
    → IsValid (purge_entries now clock m s)
purge_entries-IsValid now clock m s v = IsValid-Steps (Steps-purge_entries now clock m s) v

pub run-IsValid_from : (s : Store) (cs : List Call) → IsValid s → IsValid (run s cs)
unfolding run
run-IsValid_from s [] v = v
run-IsValid_from s (c ∷ cs) v = run-IsValid_from (step s c) cs (step-IsValid s c v)

pub new-IsValid :
    (max_secrets max_tombstones : ℤ) (memory : Memory)
    → IsValid (new max_secrets max_tombstones memory)
unfolding new lookup
new-IsValid max_secrets max_tombstones memory = record {
  bounded = record {
    entries_distinct = tt;
    tombs_distinct = tt;
    entries_bound = omega arith;
    tombs_bound = omega arith;
  };
  owns = record { keyed = λ j e h. cc; allocated = λ j e h. cc; unshared = λ i j e f h h' n. cc };
}

-- After every history from an empty store: each ID is in each map once, neither map is over its
-- limit, every entry lies under its own lookup ID, and no two entries share a ciphertext.
pub run-IsValid :
    (max_secrets max_tombstones : ℤ) (memory : Memory) (cs : List Call)
    → IsValid (run (new max_secrets max_tombstones memory) cs)
run-IsValid max_secrets max_tombstones memory cs =
    run-IsValid_from _ cs (new-IsValid max_secrets max_tombstones memory)
