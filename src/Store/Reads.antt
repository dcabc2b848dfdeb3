-- ===== src/Store/Reads.antt =====
-- How often a secret can be read.
use secretstash.Base.{
  ℕ, zero, suc, ◌+◌, ◌≤◌, ◌≡◌, ◌≢◌, refl, ap, ◌∙◌, if_pos, List, [], ◌∷◌, Option, none, some, false,
  All, bytes_dec, lookup-insert, arith,
}
use secretstash.Base.Int.{ℤ, pos, negsuc, pred, is_nonpos}
use secretstash.Store.{
  Answer, missing, found, gone, Time, SecretId, consumed, Entry, new_entry, Store, lookup_entry,
  put, take, peek,
}
use secretstash.Store.Cases.{
  Fate, refusal, decrement, TakeCase, live_locked-cases, take-cases, revoke-cases,
}
use secretstash.Crypto.{Box}
use secretstash.Store.Calls.{Call, puts, takes, peeks, revokes, purges, seal_into, sealed_of, step}
use secretstash.Store.Shrinks.{
  Shrinks, goes, stays, Shrinks-DeadCase, Shrinks-LiveCase, Shrinks-RevokeCase, Shrinks-purge,
}
use secretstash.Store.Frame.{lookup_entry-bury, Frame-take}

-- The reads that a counter allows; one that is not positive is deleted by its next read.
abbrev pub reads_left : ℤ → ℕ
reads_left (pos zero) = 1
reads_left (pos (suc n)) = suc n
reads_left (negsuc n) = 1

abbrev pub allowance_of : Option Entry → ℕ
allowance_of none = 0
allowance_of (some e) = reads_left e.reads_remaining

-- The reads that are left of the secret with this ID.
abbrev pub allowance : SecretId → Store → ℕ
allowance id s = allowance_of (lookup_entry id s)

abbrev pub reads {ℓ} : {A : Type ℓ} → Answer A → ℕ
reads missing = 0
reads (found a) = 1
reads (gone r t) = 0

Shrinks-allowance : (id : SecretId) {s t : Store} → Shrinks id s t → allowance id t ≤ allowance id s
Shrinks-allowance id (goes p) = omega (arith, ap allowance_of p)
Shrinks-allowance id (stays p) = omega (arith, ap allowance_of p)

reads_left_more : (r : ℤ) → is_nonpos (pred r) ≡ false → suc (reads_left (pred r)) ≡ reads_left r
reads_left_more (pos zero) h = cc
reads_left_more (pos (suc zero)) h = cc
reads_left_more (pos (suc (suc n))) h = refl
reads_left_more (negsuc n) h = cc

reads_left_pos : (r : ℤ) → 1 ≤ reads_left r
reads_left_pos (pos zero) = omega arith
reads_left_pos (pos (suc n)) = omega arith
reads_left_pos (negsuc n) = omega arith

reads-refusal : (f : Fate) → reads {A = Entry} (refusal f) ≡ 0
reads-refusal none = refl
reads-refusal (some f) = refl

-- A read takes one from the allowance.
allowance-TakeCase :
    (id : SecretId) {s : Store} {now later : Time} {r : Store × Answer Entry}
    → TakeCase s now later id r
    → reads r.1 + allowance id r.0 ≤ allowance id s
allowance-TakeCase id {s} (TakeCase.read e l h z) = omega (
  arith,
  ap allowance_of
      (lookup-insert bytes_dec id id (decrement e) s.entries ∙ if_pos (bytes_dec id id) refl _ _),
  ap allowance_of l,
  reads_left_more e.reads_remaining z,
)
allowance-TakeCase id {s} {later = later} (TakeCase.last_read e l h z) = omega (
  arith,
  ap allowance_of
      (lookup_entry-bury _ later id id consumed (decrement e) ∙ if_pos (bytes_dec id id) refl _ _),
  ap allowance_of l,
  reads_left_pos e.reads_remaining,
)
allowance-TakeCase id (TakeCase.refused {f = f} d) =
    omega (arith, reads-refusal f, Shrinks-allowance id (Shrinks-DeadCase id id d))

-- The reads of one secret in a history.
abbrev pub reads_if {κ} : {P : Type κ} → Dec P → Answer Entry → ℕ
reads_if (yes p) a = reads a
reads_if (no p) a = 0

unfoldable pub reads_of : SecretId → Store → List Call → ℕ
reads_of id s [] = 0
reads_of id s (puts now f ttl n ∷ cs) = reads_of id (step s (puts now f ttl n)) cs
reads_of id s (takes now later j ∷ cs) =
    reads_if (bytes_dec j id) (take s now later j).1 + reads_of id (step s (takes now later j)) cs
reads_of id s (peeks now later j ∷ cs) = reads_of id (step s (peeks now later j)) cs
reads_of id s (revokes now later j ∷ cs) = reads_of id (step s (revokes now later j)) cs
reads_of id s (purges now clock ∷ cs) = reads_of id (step s (purges now clock)) cs

-- The call puts nothing under this ID.
abbrev pub PutsOther : SecretId → Call → Type 0
PutsOther id (puts now f ttl n) = f.lookup_id ≢ id
PutsOther id (takes now later j) = Unit
PutsOther id (peeks now later j) = Unit
PutsOther id (revokes now later j) = Unit
PutsOther id (purges now clock) = Unit

lookup_entry-put_ne :
    (s : Store) (now : Time) (f : Box) (ttl n : ℤ) (j : SecretId)
    → f.lookup_id ≢ j
    → lookup_entry j (put (seal_into s f) now (sealed_of s f) ttl n).0 ≡ lookup_entry j s
unfolding put
lookup_entry-put_ne s now f ttl n j h =
    ground
      (arith, lookup-insert bytes_dec f.lookup_id j (new_entry now (sealed_of s f) ttl n) s.entries)

allowance-take :
    (id j : SecretId) (s : Store) (now later : Time)
    → reads_if (bytes_dec j id) (take s now later j).1 + allowance id (take s now later j).0
      ≤ allowance id s
allowance-take id j s now later =
    elim (bytes_dec j id)
      as (λ d.
        reads_if d (take s now later j).1 + allowance id (take s now later j).0 ≤ allowance id s) [
          | yes p ↦ rw p (allowance-TakeCase id (take-cases s now later id))
          | no p ↦ omega (arith, ap allowance_of (Frame-take j id p s now later).entry)
        ]

-- In every history that puts nothing more under an ID, its secret is read at most as often as
-- its counter allows.
pub reads_of-le-allowance :
    (id : SecretId) (s : Store) (cs : List Call)
    → All (PutsOther id) cs
    → reads_of id s cs ≤ allowance id s
unfolding reads_of step peek
reads_of-le-allowance id s [] h = omega arith
reads_of-le-allowance id s (puts now f ttl n ∷ cs) h = omega (
  arith,
  reads_of-le-allowance id (step s (puts now f ttl n)) cs h.1,
  ap allowance_of (lookup_entry-put_ne s now f ttl n id h.0),
)
reads_of-le-allowance id s (takes now later j ∷ cs) h = omega (
  arith,
  reads_of-le-allowance id (step s (takes now later j)) cs h.1,
  allowance-take id j s now later,
)
reads_of-le-allowance id s (peeks now later j ∷ cs) h = omega (
  arith,
  reads_of-le-allowance id (step s (peeks now later j)) cs h.1,
  Shrinks-allowance id (Shrinks-LiveCase j id (live_locked-cases s now later j)),
)
reads_of-le-allowance id s (revokes now later j ∷ cs) h = omega (
  arith,
  reads_of-le-allowance id (step s (revokes now later j)) cs h.1,
  Shrinks-allowance id (Shrinks-RevokeCase j id (revoke-cases s now later j)),
)
reads_of-le-allowance id s (purges now clock ∷ cs) h = omega (
  arith,
  reads_of-le-allowance id (step s (purges now clock)) cs h.1,
  Shrinks-allowance id (Shrinks-purge id s now clock),
)
