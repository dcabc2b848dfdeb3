-- ===== src/Store/Handed.antt =====
-- What becomes of a slice that a Take of internal/store/store.go handed out, while other calls go on: Open
-- reads it outside the lock.
pub mod Lasting
use secretstash.Base.{
  ℕ, ◌<◌, ◌≡◌, ◌≢◌, refl, sym, ap, ◌∙◌, subst, if_pos, if_neg, List, [], ◌∷◌, none, some, Bool,
  true, false, Bool-cases, inl, inr, Assoc, lookup, Distinct, Bytes, ℕ_discrete, bytes_dec, ltb,
  if◌then◌else◌, All, leb, size, arith,
}
use secretstash.Base.Int.{ℤ}
use secretstash.Crypto.{Box}
use secretstash.Memory.{wipe, wipe_bytes, wipe_ne, clone, clone_ne}
use secretstash.Store.{
  Time, SecretId, Reason, consumed, expired, revoked, Sealed, Entry, Tombstone, Store, Answer,
  lookup_entry, drop_tomb, bury, put, take, peek, revoke, purge_entries, purge_tombs, purge,
}
use secretstash.Store.Cases.{
  Fate, decrement, burn, CheckCase, DeadCase, LiveCase, TakeCase, RevokeCase, live_locked-cases,
  take-cases, revoke-cases,
}
use secretstash.Store.Calls.{
  Call, puts, takes, peeks, revokes, purges, seal_into, sealed_of, step, run,
}
use secretstash.Store.Delivery.{memory-bury}
use secretstash.Store.Valid.{IsValid}

pub wipe_bytes_twice : (b : Bytes) → wipe_bytes (wipe_bytes b) ≡ wipe_bytes b
unfolding wipe_bytes
wipe_bytes_twice [] = refl
wipe_bytes_twice (x ∷ b) = ap (◌∷◌ 0) (wipe_bytes_twice b)

-- Between two stores the bytes of a slice stay, or they are zeroed because an entry of the store `o` owns it.
pub data Touch (a : ℕ) (o s t : Store) : Type 0 where
  kept : t.memory.cells a ≡ s.memory.cells a → Touch a o s t
  wiped :
      (j : SecretId) (e : Entry)
      → lookup_entry j o ≡ some e
      → e.sealed.ciphertext ≡ a
      → t.memory.cells a ≡ wipe_bytes (s.memory.cells a)
      → Touch a o s t

module _ (a : ℕ) (o : Store) where
  Touch-trans : (s t u : Store) → Touch a o s t → Touch a o t u → Touch a o s u
  Touch-trans s t u (Touch.kept p) (Touch.kept q) = Touch.kept (q ∙ p)
  Touch-trans s t u (Touch.kept p) (Touch.wiped j e l h q) =
      Touch.wiped j e l h (q ∙ ap wipe_bytes p)
  Touch-trans s t u (Touch.wiped j e l h p) (Touch.kept q) = Touch.wiped j e l h (q ∙ p)
  Touch-trans s t u (Touch.wiped j e l h p) (Touch.wiped j' e' l' h' q) =
      Touch.wiped j e l h (q ∙ ap wipe_bytes p ∙ wipe_bytes_twice (s.memory.cells a))

  Touch-bury :
      (s : Store) (now : Time) (id : SecretId) (r : Reason) (e owner : Entry)
      → lookup_entry id o ≡ some owner
      → e.sealed.ciphertext ≡ owner.sealed.ciphertext
      → Touch a o s (bury s now id r e)
  unfolding wipe
  Touch-bury s now id r e owner l same = elim (ℕ_discrete e.sealed.ciphertext a) [
    | yes p ↦
        Touch.wiped id owner l (sym same ∙ p)
          (ap (λ m. m.cells a) (memory-bury s now id r e) ∙ ground arith)
    | no p ↦ Touch.kept (
        ap (λ m. m.cells a) (memory-bury s now id r e)
        ∙ wipe_ne s.memory e.sealed.ciphertext a (λ q. p (sym q)))
  ]

  -- The entries that are left to visit are entries of the store.
  abbrev Present : Assoc SecretId Entry → Type 0
  Present m = All (λ (p : SecretId × Entry). lookup_entry p.0 o ≡ some p.1) m

  Touch-purge_entries :
      (now : Time) (clock : SecretId → Time) (m : Assoc SecretId Entry) (s : Store)
      → Present m
      → Touch a o s (purge_entries now clock m s)
  unfolding purge_entries
  Touch-purge_entries now clock [] s f = Touch.kept refl
  Touch-purge_entries now clock ((id, e) ∷ m) s f =
      Touch-trans s _ _ (one (ltb now e.expires_at)) (Touch-purge_entries now clock m _ f.1)
    where
      one : (b : Bool) → Touch a o s (if b then s else bury s (clock id) id expired e)
      one true = Touch.kept refl
      one false = Touch-bury s (clock id) id expired e e f.0 refl

  cells-purge_tombs :
      (now : Time) (m : Assoc SecretId Tombstone) (s : Store)
      → (purge_tombs now m s).memory.cells a ≡ s.memory.cells a
  unfolding purge_tombs
  cells-purge_tombs now [] s = refl
  cells-purge_tombs now ((id, t) ∷ m) s = cells-purge_tombs now m _ ∙ one (ltb now t.expires_at)
    where
      one : (b : Bool) → (if b then s else drop_tomb id s).memory.cells a ≡ s.memory.cells a
      one true = refl
      one false = refl

-- Every entry is found under its key.
pub Present_self :
    (o : Store) (m : Assoc SecretId Entry)
    → Distinct bytes_dec m
    → ((j : SecretId) (e : Entry) → lookup bytes_dec j m ≡ some e → lookup_entry j o ≡ some e)
    → All (λ (p : SecretId × Entry). lookup_entry p.0 o ≡ some p.1) m
unfolding lookup
Present_self o [] d h = tt
Present_self o ((k, v) ∷ m) d h = (
  h k v (if_pos (bytes_dec k k) refl (some v) (lookup bytes_dec k m)),
  Present_self o m d.1 (λ j e l. elim (bytes_dec k j) [
    | yes p ↦ absurd (missing_here e (sym d.0 ∙ ap (λ i. lookup bytes_dec i m) p ∙ l))
    | no p ↦ h j e (if_neg (bytes_dec k j) p (some v) (lookup bytes_dec j m) ∙ l)
  ]),
)
  where
    missing_here : (e : Entry) → none ≡ some e → ⊥
    missing_here e q = cc

module _ (a : ℕ) where
  Touch-CheckCase :
      {s : Store} {now : Time} {id : SecretId} {s' : Store} {f : Fate}
      → CheckCase s now id s' f
      → s'.memory.cells a ≡ s.memory.cells a
  Touch-CheckCase (CheckCase.told t l h) = refl
  Touch-CheckCase (CheckCase.faded t l h) = refl
  Touch-CheckCase (CheckCase.unseen l) = refl

  Touch-DeadCase :
      {s : Store} {now later : Time} {id : SecretId} {s' : Store} {f : Fate}
      → DeadCase s now later id s' f
      → Touch a s s s'
  Touch-DeadCase (DeadCase.absent l c) = Touch.kept (Touch-CheckCase c)
  Touch-DeadCase {s} {later = later} {id = id} {s' = s'} (DeadCase.ran_out e l h c) =
      Touch-trans a s s (bury s later id expired e) s'
        (Touch-bury a s s later id expired e e l refl) (Touch.kept (Touch-CheckCase c))

  Touch-LiveCase :
      {s : Store} {now later : Time} {id : SecretId} {r : Store × Answer Entry}
      → LiveCase s now later id r
      → Touch a s s r.0
  Touch-LiveCase (LiveCase.alive e l h) = Touch.kept refl
  Touch-LiveCase (LiveCase.dead d) = Touch-DeadCase d

  Touch-TakeCase :
      {s : Store} {now later : Time} {id : SecretId} {r : Store × Answer Entry}
      → a < s.memory.next
      → TakeCase s now later id r
      → Touch a s s r.0
  Touch-TakeCase p (TakeCase.read e l h z) = Touch.kept refl
  Touch-TakeCase {s} {later = later} {id = id} p (TakeCase.last_read e l h z) =
      let s' : Store = record s { memory = clone s.memory e.sealed.ciphertext } in
      Touch-trans a s s s' (burn s later id e)
        (Touch.kept (clone_ne s.memory e.sealed.ciphertext a (λ q. absurd (omega arith))))
        (Touch-bury a s s' later id consumed (decrement e) e l refl)
  Touch-TakeCase p (TakeCase.refused d) = Touch-DeadCase d

  Touch-RevokeCase :
      {s : Store} {now later : Time} {id : SecretId} {r : Store × Answer (Unit {0})}
      → RevokeCase s now later id r
      → Touch a s s r.0
  Touch-RevokeCase {s} {later = later} {id = id} (RevokeCase.removed e l h) =
      Touch-bury a s s later id revoked e e l refl
  Touch-RevokeCase (RevokeCase.refused d) = Touch-DeadCase d

  cells-put :
      (s : Store) (now : Time) (f : Box) (ttl n : ℤ)
      → a < s.memory.next
      → (put (seal_into s f) now (sealed_of s f) ttl n).0.memory.cells a ≡ s.memory.cells a
  unfolding put
  cells-put s now f ttl n p = elim (Bool-cases (leb s.max_secrets (size s.entries))) [
    | inl h ↦ rw h (ground arith)
    | inr h ↦ rw h (ground arith)
  ]

  -- A call zeroes a slice that was in use only if an entry owned it, and never writes anything else to it.
  pub step-Touch : (s : Store) (c : Call) → IsValid s → a < s.memory.next → Touch a s s (step s c)
  unfolding step peek purge
  step-Touch s (puts now f ttl n) v p = Touch.kept (cells-put s now f ttl n p)
  step-Touch s (takes now later id) v p = Touch-TakeCase p (take-cases s now later id)
  step-Touch s (peeks now later id) v p = Touch-LiveCase (live_locked-cases s now later id)
  step-Touch s (revokes now later id) v p = Touch-RevokeCase (revoke-cases s now later id)
  step-Touch s (purges now clock) v p =
      let s' = purge_entries now clock s.entries s in
      Touch-trans a s s s' (purge_tombs now s'.tombs s')
        (Touch-purge_entries a s now clock s.entries s
          (Present_self s s.entries v.bounded.entries_distinct (λ j e l. l)))
        (Touch.kept (cells-purge_tombs a s now s'.tombs s'))
