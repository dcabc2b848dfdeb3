-- ===== src/Store/Bounds.antt =====
-- The sizes of the maps, and the keys that they hold.
use secretstash.Base.{
  ◌≤◌, ◌≡◌, some, Bool-cases, inl, inr, size, Distinct, bytes_dec, insert-Distinct, delete-Distinct,
  size-insert_old, size-insert-le, size-delete-le, leb, arith,
}
use secretstash.Base.Int.{ℤ}
use secretstash.Memory.{Memory}
use secretstash.Store.{
  Time, SecretId, Reason, Sealed, Entry, new_entry, Store, lookup_entry, set_entry, drop_tomb,
  tombstone, bury, put,
}

-- The maps have each key once, and stay within the limits.
pub record IsBounded (s : Store) : Type 0 where
  pub entries_distinct : Distinct bytes_dec s.entries
  pub tombs_distinct : Distinct bytes_dec s.tombs
  pub entries_bound : size s.entries ≤ s.max_secrets
  pub tombs_bound : size s.tombs ≤ s.max_tombstones

pub bury-IsBounded :
    (s : Store) (now : Time) (id : SecretId) (r : Reason) (e : Entry)
    → IsBounded s
    → IsBounded (bury s now id r e)
unfolding bury
bury-IsBounded s now id r e b = record {
  entries_distinct = ground (arith, delete-Distinct bytes_dec id s.entries);
  tombs_distinct =
      ground (arith, insert-Distinct bytes_dec id (tombstone now r e.expires_at) s.tombs);
  entries_bound = ground (arith, size-delete-le bytes_dec id s.entries);
  tombs_bound = ground (arith, size-insert-le bytes_dec id (tombstone now r e.expires_at) s.tombs);
}

pub drop_tomb-IsBounded : (s : Store) (id : SecretId) → IsBounded s → IsBounded (drop_tomb id s)
drop_tomb-IsBounded s id b = record {
  entries_distinct = b.entries_distinct;
  tombs_distinct = delete-Distinct bytes_dec id s.tombs b.tombs_distinct;
  entries_bound = b.entries_bound;
  tombs_bound = ground (arith, size-delete-le bytes_dec id s.tombs);
}

pub set_entry-IsBounded :
    (s : Store) (id : SecretId) (e e' : Entry)
    → lookup_entry id s ≡ some e
    → IsBounded s
    → IsBounded (set_entry id e' s)
set_entry-IsBounded s id e e' h b = record {
  entries_distinct = insert-Distinct bytes_dec id e' s.entries b.entries_distinct;
  tombs_distinct = b.tombs_distinct;
  entries_bound = omega (arith, size-insert_old bytes_dec id e' s.entries h);
  tombs_bound = b.tombs_bound;
}

pub memory-IsBounded : (s : Store) (m : Memory) → IsBounded s → IsBounded (record s { memory = m })
memory-IsBounded s m b = record {
  entries_distinct = b.entries_distinct;
  tombs_distinct = b.tombs_distinct;
  entries_bound = b.entries_bound;
  tombs_bound = b.tombs_bound;
}

pub put-IsBounded :
    (s : Store) (now : Time) (sealed : Sealed) (ttl reads : ℤ)
    → IsBounded s
    → IsBounded (put s now sealed ttl reads).0
unfolding put
put-IsBounded s now sealed ttl reads b = elim (Bool-cases (leb s.max_secrets (size s.entries))) [
  | inl full ↦ rw full b
  | inr room ↦ rw room (record {
    entries_distinct = insert-Distinct bytes_dec _ _ s.entries b.entries_distinct;
    tombs_distinct = b.tombs_distinct;
    entries_bound = ground (
      arith,
      size-insert-le bytes_dec sealed.lookup_id (new_entry now sealed ttl reads) s.entries,
    );
    tombs_bound = b.tombs_bound;
  })
]
