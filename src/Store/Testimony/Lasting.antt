-- ===== src/Store/Testimony/Lasting.antt =====
-- The evidence of a consumed secret lasts for a day.
use secretstash.Base.{
  ◌+◌, ◌<◌, ◌≤◌, ◌≡◌, sym, ap, subst, List, [], ◌∷◌, some, true, All, All-map, arith,
}
use secretstash.Base.Int.{ℤ, pred, is_nonpos}
use secretstash.Store.{
  Time, SecretId, consumed, Entry, Tombstone, Store, gone, day, lookup_entry, new, tombstone, take,
  peek, revoke,
}
use secretstash.Store.Calls.{Call, puts, takes, peeks, revokes, purges, step, run}
use secretstash.Store.Frame.{HasRoom, Frame-take, Frame-peek, Frame-revoke}
use secretstash.Store.Evidence.{le-tombstone, lookup_tomb-bury_self, lookup_entry-bury_self}
use secretstash.Store.Valid.{IsValid, step-IsValid, take-IsValid, run-IsValid}
use secretstash.Store.Cases.{decrement, burn}
use secretstash.Store.Countdown.{take_last}
use secretstash.Memory.{Memory, clone}
use secretstash.Store.Testimony.{
  Remembers, IsBefore, Remembers-take, Remembers-peek, Remembers-revoke, on_any, put-Remembers,
  purge-Remembers,
}

module _ (id : SecretId) (t : Tombstone) where
  step-Remembers :
      (s : Store) (c : Call)
      → IsValid s
      → IsBefore id t.expires_at c
      → Remembers id t s
      → Remembers id t (step s c)
  unfolding step
  step-Remembers s (puts now f ttl reads) v b k = put-Remembers id t s now f ttl reads b k
  step-Remembers s (takes now later j) v b k =
      on_any id t (λ i. (take s now later i).0) s
        (ap (λ r. r.0) (Remembers-take id t s now later b k)) (λ i p. Frame-take i id p s now later)
        j k
  step-Remembers s (peeks now later j) v b k =
      on_any id t (λ i. (peek s now later i).0) s
        (ap (λ r. r.0) (Remembers-peek id t s now later b k)) (λ i p. Frame-peek i id p s now later)
        j k
  step-Remembers s (revokes now later j) v b k =
      on_any id t (λ i. (revoke s now later i).0) s
        (ap (λ r. r.0) (Remembers-revoke id t s now later b k))
        (λ i p. Frame-revoke i id p s now later) j k
  step-Remembers s (purges now clock) v b k = purge-Remembers id t s now clock v b k

  run-Remembers :
      (s : Store) (cs : List Call)
      → IsValid s
      → All (IsBefore id t.expires_at) cs
      → Remembers id t s
      → Remembers id t (run s cs)
  unfolding run
  run-Remembers s [] v b k = k
  run-Remembers s (c ∷ cs) v b k =
      run-Remembers (step s c) cs (step-IsValid s c v) b.1 (step-Remembers s c v b.0 k)

IsBefore-mono :
    (id : SecretId) (a b : Time) → a ≤ b → (c : Call) → IsBefore id a c → IsBefore id b c
IsBefore-mono id a b h (puts now f ttl reads) p = p
IsBefore-mono id a b h (takes now later j) p = omega arith
IsBefore-mono id a b h (peeks now later j) p = omega arith
IsBefore-mono id a b h (revokes now later j) p = omega arith
IsBefore-mono id a b h (purges now clock) p = omega arith

-- After the last read of a secret, with room for its tombstone, every Take of it within a day is told that
-- it was consumed and when: whatever calls come between, if they read the clock within the day and put
-- nothing under its ID.
pub take-run-take_last :
    (max_secrets max_tombstones : ℤ) (memory : Memory) (before after : List Call)
    (now later now' later' : Time) (id : SecretId) (e : Entry)
    → HasRoom (run (new max_secrets max_tombstones memory) before)
    → lookup_entry id (run (new max_secrets max_tombstones memory) before) ≡ some e
    → now < e.expires_at
    → is_nonpos (pred e.reads_remaining) ≡ true
    → All (IsBefore id (later + day)) after
    → now' < later + day
    → (take
        (run (take (run (new max_secrets max_tombstones memory) before) now later id).0 after)
        now'
        later'
        id).1
      ≡ gone consumed later
unfolding tombstone
take-run-take_last max_secrets max_tombstones memory before after now later now' later' id e room l
      h z b h' =
    let s = run (new max_secrets max_tombstones memory) before in
    let v = run-IsValid max_secrets max_tombstones memory before in
    let t = tombstone later consumed e.expires_at in
    let long = le-tombstone later consumed e.expires_at in
    let s' : Store = record s { memory = clone s.memory e.sealed.ciphertext } in
    let burned : Remembers id t (burn s later id e) = record {
      no_entry = lookup_entry-bury_self s' later id consumed (decrement e);
      tomb = lookup_tomb-bury_self s' later id consumed (decrement e) room;
    } in
    let first : Remembers id t (take s now later id).0 =
      subst (λ u. Remembers id t u) (sym (ap (λ r. r.0) (take_last s now later id e l h z)))
        burned in
    let last =
      run-Remembers id t (take s now later id).0 after (take-IsValid s now later id v)
        (All-map (IsBefore-mono id (later + day) t.expires_at long) after b) first in
    ap (λ r. r.1)
      (Remembers-take id t (run (take s now later id).0 after) now' later' (omega (arith, long, h'))
        last)
