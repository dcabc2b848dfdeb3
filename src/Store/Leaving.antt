-- ===== src/Store/Leaving.antt =====
-- What internal/store/store.go leaves of a secret that it no longer holds: zeros in place of the ciphertext.
pub mod Zeroed
use secretstash.Base.{
  ℕ, ◌<◌, ◌≤◌, ◌≡◌, ◌≢◌, refl, sym, ap, ◌∙◌, ite, if_pos, if_neg, List, [], ◌∷◌, none, some, Bool,
  true, false, Bool-cases, ◌⊎◌, inl, inr, Assoc, Bytes, bytes_dec, ℕ_discrete, ltb, if◌then◌else◌,
  All, All-map, length, replicate, leb, size, lookup-insert, arith,
}
use secretstash.Base.Int.{ℤ}
use secretstash.Crypto.{Box}
use secretstash.Memory.{
  Memory, wipe, wipe_bytes, wipe_bytes-replicate, wipe_ne, next-wipe, clone, clone_ne,
}
use secretstash.Store.{
  Time, SecretId, Reason, consumed, expired, revoked, Sealed, Entry, Tombstone, Store, Answer, new,
  new_entry, lookup_entry, set_entry, drop_tomb, bury, put, take, peek, revoke, purge_entries,
  purge_tombs, purge,
}
use secretstash.Store.Cases.{
  Fate, decrement, burn, CheckCase, DeadCase, LiveCase, TakeCase, RevokeCase, live_locked-cases,
  take-cases, revoke-cases,
}
use secretstash.Store.Calls.{
  Call, puts, takes, peeks, revokes, purges, seal_into, sealed_of, step, run,
}
use secretstash.Store.Delivery.{memory-bury}
use secretstash.Store.Frame.{lookup_entry-bury}
use secretstash.Store.Reads.{PutsOther}
use secretstash.Store.Shrinks.{purge_tombs-entries}
use secretstash.Store.Valid.{IsValid, step-IsValid, run-IsValid}
use secretstash.Store.Handed.{wipe_bytes_twice, Present_self}

some_inj : {x y : Entry} → some x ≡ some y → x ≡ y
some_inj h = cc

-- The secret of the entry e, with the ciphertext c, in a later store: it lies under its ID with the same
-- slice, or it does not and the slice is zeroed.
pub record Tracks (id : SecretId) (e : Entry) (c : Bytes) (t : Store) : Type 0 where
  pub allocated : e.sealed.ciphertext < t.memory.next
  pub size : wipe_bytes (t.memory.cells e.sealed.ciphertext) ≡ wipe_bytes c
  pub state :
      ((x : Entry) × (lookup_entry id t ≡ some x) × (x.sealed ≡ e.sealed))
      ⊎ ((lookup_entry id t ≡ none) × (t.memory.cells e.sealed.ciphertext ≡ wipe_bytes c))

module _ (id : SecretId) (e : Entry) (c : Bytes) where
  -- A store with the same entries, and the same bytes in the slice.
  pub Tracks-same :
      {s t : Store}
      → lookup_entry id t ≡ lookup_entry id s
      → t.memory.cells e.sealed.ciphertext ≡ s.memory.cells e.sealed.ciphertext
      → s.memory.next ≤ t.memory.next
      → Tracks id e c s
      → Tracks id e c t
  Tracks-same l m n k = record {
    allocated = omega (arith, k.allocated);
    size = ap wipe_bytes m ∙ k.size;
    state = elim k.state [ inl (x, h, q) ↦ inl (x, l ∙ h, q) | inr (h, z) ↦ inr (l ∙ h, m ∙ z) ];
  }

  -- The entry of an ID, if it is this one.
  pub Tracks-entry :
      {s : Store}
      → Tracks id e c s
      → (j : SecretId) (y : Entry) → lookup_entry j s ≡ some y
      → j ≡ id
      → y.sealed ≡ e.sealed
  Tracks-entry {s} k j y l p = elim k.state [
    | inl (x, h, q) ↦
        ap (λ (z : Entry). z.sealed) (some_inj (sym l ∙ ap (λ i. lookup_entry i s) p ∙ h)) ∙ q
    | inr (h, z) ↦ absurd (absent (sym l ∙ ap (λ i. lookup_entry i s) p ∙ h))
  ]
    where
      absent : some y ≡ none → ⊥
      absent h = cc

  cells-bury :
      (s : Store) (now : Time) (j : SecretId) (r : Reason) (y : Entry)
      → ((bury s now j r y).memory.cells e.sealed.ciphertext ≡ s.memory.cells e.sealed.ciphertext)
        ⊎ ((bury s now j r y).memory.cells e.sealed.ciphertext
            ≡ wipe_bytes (s.memory.cells e.sealed.ciphertext))
  unfolding wipe
  cells-bury s now j r y =
      let m = ap (λ m. m.cells e.sealed.ciphertext) (memory-bury s now j r y) in
      elim (ℕ_discrete y.sealed.ciphertext e.sealed.ciphertext) [
        | yes p ↦ inr (m ∙ ground arith)
        | no p ↦ inl (m ∙ wipe_ne s.memory y.sealed.ciphertext e.sealed.ciphertext (λ q. p (sym q)))
      ]

  cells-bury_self :
      (s : Store) (now : Time) (j : SecretId) (r : Reason) (y : Entry)
      → y.sealed.ciphertext ≡ e.sealed.ciphertext
      → (bury s now j r y).memory.cells e.sealed.ciphertext
        ≡ wipe_bytes (s.memory.cells e.sealed.ciphertext)
  unfolding wipe
  cells-bury_self s now j r y q =
      ap (λ m. m.cells e.sealed.ciphertext) (memory-bury s now j r y) ∙ ground arith

  pub Tracks-bury :
      (s : Store) (now : Time) (j : SecretId) (r : Reason) (y : Entry)
      → (j ≡ id → y.sealed.ciphertext ≡ e.sealed.ciphertext)
      → Tracks id e c s
      → Tracks id e c (bury s now j r y)
  Tracks-bury s now j r y own k = record {
    allocated = omega (
      arith,
      k.allocated,
      ap (λ m. m.next) (memory-bury s now j r y),
      next-wipe s.memory y.sealed.ciphertext,
    );
    size = elim changed [
      | inl m ↦ ap wipe_bytes m ∙ k.size
      | inr m ↦ ap wipe_bytes m ∙ wipe_bytes_twice _ ∙ k.size
    ];
    state = elim (bytes_dec j id) [
      | yes p ↦
          inr (l ∙ if_pos (bytes_dec j id) p _ _, cells-bury_self s now j r y (own p) ∙ k.size)
      | no p ↦ elim k.state [
        | inl (x, h, q) ↦ inl (x, l ∙ if_neg (bytes_dec j id) p _ _ ∙ h, q)
        | inr (h, z) ↦ inr (
          l ∙ if_neg (bytes_dec j id) p _ _ ∙ h,
          elim changed [ inl m ↦ m ∙ z | inr m ↦ m ∙ ap wipe_bytes z ∙ wipe_bytes_twice c ],
        )
      ]
    ];
  }
    where
      l : lookup_entry id (bury s now j r y) ≡ ite (bytes_dec j id) none (lookup_entry id s)
      l = lookup_entry-bury s now j id r y

      changed :
          ((bury s now j r y).memory.cells e.sealed.ciphertext ≡ s.memory.cells e.sealed.ciphertext)
          ⊎ ((bury s now j r y).memory.cells e.sealed.ciphertext
              ≡ wipe_bytes (s.memory.cells e.sealed.ciphertext))
      changed = cells-bury s now j r y

  -- An entry that is found is buried with its own slice.
  pub Tracks-bury_found :
      (s : Store) (now : Time) (j : SecretId) (r : Reason) (y : Entry)
      → lookup_entry j s ≡ some y
      → Tracks id e c s
      → Tracks id e c (bury s now j r y)
  Tracks-bury_found s now j r y l k =
      Tracks-bury s now j r y (λ p. ap (λ (d : Sealed). d.ciphertext) (Tracks-entry k j y l p)) k

  Tracks-CheckCase :
      {s : Store} {now : Time} {j : SecretId} {s' : Store} {f : Fate}
      → CheckCase s now j s' f
      → Tracks id e c s
      → Tracks id e c s'
  Tracks-CheckCase (CheckCase.told t l h) k = k
  Tracks-CheckCase (CheckCase.faded t l h) k = Tracks-same refl refl (omega arith) k
  Tracks-CheckCase (CheckCase.unseen l) k = k

  pub Tracks-DeadCase :
      {s : Store} {now later : Time} {j : SecretId} {s' : Store} {f : Fate}
      → DeadCase s now later j s' f
      → Tracks id e c s
      → Tracks id e c s'
  Tracks-DeadCase (DeadCase.absent l x) k = Tracks-CheckCase x k
  Tracks-DeadCase {s} {later = later} {j = j} (DeadCase.ran_out y l h x) k =
      Tracks-CheckCase x (Tracks-bury_found s later j expired y l k)

  pub Tracks-LiveCase :
      {s : Store} {now later : Time} {j : SecretId} {r : Store × Answer Entry}
      → LiveCase s now later j r
      → Tracks id e c s
      → Tracks id e c r.0
  Tracks-LiveCase (LiveCase.alive y l h) k = k
  Tracks-LiveCase (LiveCase.dead d) k = Tracks-DeadCase d k
