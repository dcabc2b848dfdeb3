-- ===== src/Store/Leaving/Zeroed.antt =====
-- Every way out of internal/store/store.go zeroes the ciphertext.
use secretstash.Base.{
  ◌≡◌, ◌≢◌, refl, sym, ap, ◌∙◌, subst, ite, if_pos, if_neg, List, [], ◌∷◌, none, some, Bool, true,
  false, Bool-cases, inl, inr, Assoc, Bytes, bytes_dec, ltb, if◌then◌else◌, All, All-map, length,
  replicate, leb, size, lookup-insert, arith,
}
use secretstash.Base.Int.{ℤ}
use secretstash.Crypto.{Box}
use secretstash.Memory.{Memory, wipe_bytes-replicate, clone, clone_ne}
use secretstash.Store.{
  Time, SecretId, consumed, expired, revoked, Sealed, Entry, Tombstone, Store, Answer, new,
  new_entry, lookup_entry, set_entry, drop_tomb, bury, put, peek, purge_entries, purge_tombs, purge,
}
use secretstash.Store.Cases.{
  decrement, TakeCase, RevokeCase, live_locked-cases, take-cases, revoke-cases,
}
use secretstash.Store.Calls.{
  Call, puts, takes, peeks, revokes, purges, seal_into, sealed_of, step, run,
}
use secretstash.Store.Reads.{PutsOther}
use secretstash.Store.Valid.{IsValid, step-IsValid, run-IsValid}
use secretstash.Store.Handed.{Present_self}
use secretstash.Store.Leaving.{
  Tracks, Tracks-same, Tracks-entry, Tracks-bury, Tracks-bury_found, Tracks-DeadCase,
  Tracks-LiveCase,
}

module _ (id : SecretId) (e : Entry) (c : Bytes) where
  Tracks-set_entry :
      (s : Store) (j : SecretId) (y : Entry)
      → lookup_entry j s ≡ some y
      → Tracks id e c s
      → Tracks id e c (set_entry j (decrement y) s)
  Tracks-set_entry s j y l k = record {
    allocated = k.allocated;
    size = k.size;
    state = elim (bytes_dec j id) [
      | yes p ↦
          inl (decrement y, found ∙ if_pos (bytes_dec j id) p _ _, Tracks-entry id e c k j y l p)
      | no p ↦ elim k.state [
        | inl (x, h, q) ↦ inl (x, found ∙ if_neg (bytes_dec j id) p _ _ ∙ h, q)
        | inr (h, z) ↦ inr (found ∙ if_neg (bytes_dec j id) p _ _ ∙ h, z)
      ]
    ];
  }
    where
      found :
          lookup_entry id (set_entry j (decrement y) s)
          ≡ ite (bytes_dec j id) (some (decrement y)) (lookup_entry id s)
      found = lookup-insert bytes_dec j id (decrement y) s.entries

  Tracks-TakeCase :
      {s : Store} {now later : Time} {j : SecretId} {r : Store × Answer Entry}
      → TakeCase s now later j r
      → Tracks id e c s
      → Tracks id e c r.0
  unfolding clone
  Tracks-TakeCase {s} {j = j} (TakeCase.read y l h z) k = Tracks-set_entry s j y l k
  Tracks-TakeCase {s} {later = later} {j = j} (TakeCase.last_read y l h z) k =
      Tracks-bury id e c (record s { memory = clone s.memory y.sealed.ciphertext }) later j consumed
        (decrement y) (λ p. ap (λ (d : Sealed). d.ciphertext) (Tracks-entry id e c k j y l p))
        (Tracks-same id e c refl
          (clone_ne s.memory y.sealed.ciphertext e.sealed.ciphertext
            (λ q. absurd (omega (arith, k.allocated))))
          (omega arith) k)
  Tracks-TakeCase (TakeCase.refused d) k = Tracks-DeadCase id e c d k

  Tracks-RevokeCase :
      {s : Store} {now later : Time} {j : SecretId} {r : Store × Answer (Unit {0})}
      → RevokeCase s now later j r
      → Tracks id e c s
      → Tracks id e c r.0
  Tracks-RevokeCase {s} {later = later} {j = j} (RevokeCase.removed y l h) k =
      Tracks-bury_found id e c s later j revoked y l k
  Tracks-RevokeCase (RevokeCase.refused d) k = Tracks-DeadCase id e c d k

  -- The entries that are left to visit: the one under this ID has this slice.
  abbrev IsOwn : SecretId × Entry → Type 0
  IsOwn p = p.0 ≡ id → p.1.sealed.ciphertext ≡ e.sealed.ciphertext

  Tracks-purge_entries :
      (now : Time) (clock : SecretId → Time) (m : Assoc SecretId Entry) (s : Store)
      → All IsOwn m
      → Tracks id e c s
      → Tracks id e c (purge_entries now clock m s)
  unfolding purge_entries
  Tracks-purge_entries now clock [] s o k = k
  Tracks-purge_entries now clock ((j, y) ∷ m) s o k =
      Tracks-purge_entries now clock m _ o.1 (one (ltb now y.expires_at))
    where
      one : (b : Bool) → Tracks id e c (if b then s else bury s (clock j) j expired y)
      one true = k
      one false = Tracks-bury id e c s (clock j) j expired y o.0 k

  Tracks-purge_tombs :
      (now : Time) (m : Assoc SecretId Tombstone) (s : Store)
      → Tracks id e c s
      → Tracks id e c (purge_tombs now m s)
  unfolding purge_tombs
  Tracks-purge_tombs now [] s k = k
  Tracks-purge_tombs now ((j, t) ∷ m) s k = Tracks-purge_tombs now m _ (one (ltb now t.expires_at))
    where
      one : (b : Bool) → Tracks id e c (if b then s else drop_tomb j s)
      one true = k
      one false = Tracks-same id e c refl refl (omega arith) k

  Tracks-purge :
      (s : Store) (now : Time) (clock : SecretId → Time)
      → IsValid s
      → Tracks id e c s
      → Tracks id e c (purge s now clock)
  unfolding purge
  Tracks-purge s now clock v k = Tracks-purge_tombs now _ _ (
      Tracks-purge_entries now clock s.entries s
        (All-map {P = λ (p : SecretId × Entry). lookup_entry p.0 s ≡ some p.1} {Q = IsOwn}
          (λ (p : SecretId × Entry) h q.
            ap (λ (d : Sealed). d.ciphertext) (Tracks-entry id e c k p.0 p.1 h q))
          s.entries (Present_self s s.entries v.bounded.entries_distinct (λ j y l. l)))
        k)

  Tracks-put :
      (s : Store) (now : Time) (f : Box) (ttl n : ℤ)
      → f.lookup_id ≢ id
      → Tracks id e c s
      → Tracks id e c (put (seal_into s f) now (sealed_of s f) ttl n).0
  unfolding put
  Tracks-put s now f ttl n o k = elim (Bool-cases (leb s.max_secrets (size s.entries))) [
    | inl h ↦ rw h (Tracks-same id e c refl (ground (arith, k.allocated)) (omega arith) k)
    | inr h ↦ rw h (
        Tracks-same id e c
          (lookup-insert bytes_dec f.lookup_id id (new_entry now (sealed_of s f) ttl n) s.entries
            ∙ if_neg (bytes_dec f.lookup_id id) o _ _)
          (ground (arith, k.allocated)) (omega arith) k)
  ]

  step-Tracks :
      (s : Store) (call : Call)
      → IsValid s
      → PutsOther id call
      → Tracks id e c s
      → Tracks id e c (step s call)
  unfolding step peek
  step-Tracks s (puts now f ttl n) v o k = Tracks-put s now f ttl n o k
  step-Tracks s (takes now later j) v o k = Tracks-TakeCase (take-cases s now later j) k
  step-Tracks s (peeks now later j) v o k =
      Tracks-LiveCase id e c (live_locked-cases s now later j) k
  step-Tracks s (revokes now later j) v o k = Tracks-RevokeCase (revoke-cases s now later j) k
  step-Tracks s (purges now clock) v o k = Tracks-purge s now clock v k

  run-Tracks :
      (s : Store) (cs : List Call)
      → IsValid s
      → All (PutsOther id) cs
      → Tracks id e c s
      → Tracks id e c (run s cs)
  unfolding run
  run-Tracks s [] v o k = k
  run-Tracks s (call ∷ cs) v o k =
      run-Tracks (step s call) cs (step-IsValid s call v) o.1 (step-Tracks s call v o.0 k)

-- After any history, and any calls after it that put nothing more under the ID of a secret: when the store
-- holds this secret no more, every byte of its ciphertext is zero.
pub run_zeroed :
    (max_secrets max_tombstones : ℤ) (memory : Memory) (before after : List Call) (id : SecretId)
    (e : Entry) (s : Store)
    → run (new max_secrets max_tombstones memory) before ≡ s
    → lookup_entry id s ≡ some e
    → All (PutsOther id) after
    → lookup_entry id (run s after) ≡ none
    → (run s after).memory.cells e.sealed.ciphertext
      ≡ replicate (length (s.memory.cells e.sealed.ciphertext)) 0
run_zeroed max_secrets max_tombstones memory before after id e s reached l o absent =
    let v : IsValid s =
      subst IsValid reached (run-IsValid max_secrets max_tombstones memory before) in
    let c = s.memory.cells e.sealed.ciphertext in
    let k =
      run-Tracks id e c s after v o
        (record { allocated = v.owns.allocated id e l; size = refl; state = inl (e, l, refl) }) in
    elim k.state [
      | inl (x, h, q) ↦ absurd (there x (sym absent ∙ h))
      | inr (h, z) ↦ z ∙ wipe_bytes-replicate c
    ]
  where
    there : (x : Entry) → none ≡ some x → ⊥
    there x h = cc
