-- ===== src/Store/Testimony.antt =====
-- The evidence of a secret that is gone, through every history.
pub mod Lasting
use secretstash.Base.{
  ◌+◌, ◌<◌, ◌≤◌, ◌≡◌, ◌≢◌, sym, ap, ◌∙◌, subst, if_pos, if_neg, List, [], ◌∷◌, none, some, Bool,
  true, false, Bool-cases, ◌⊎◌, inl, inr, Assoc, lookup, Distinct, lookup-delete, bytes_dec, ltb,
  lt→ltb, if◌then◌else◌, All, All-map, leb, size, arith,
}
use secretstash.Base.Int.{ℤ, pred, is_nonpos}
use secretstash.Store.{
  Time, SecretId, consumed, expired, Entry, Tombstone, Store, gone, day, lookup_entry, lookup_tomb,
  new_entry, new, drop_tomb, tombstone, bury, live_locked, take, take_answer, peek, revoke,
  revoke_answer, put, purge_entries, purge_tombs, purge,
}
use secretstash.Store.Calls.{
  Call, puts, takes, peeks, revokes, purges, seal_into, sealed_of, step, run,
}
use secretstash.Store.Frame.{
  HasRoom, Frame, Frame-bury, Frame-set_entry, Frame-take, Frame-peek, Frame-revoke,
}
use secretstash.Store.Evidence.{
  live_locked_told, le-tombstone, lookup_tomb-bury_self, lookup_entry-bury_self,
}
use secretstash.Store.Valid.{
  IsValid, step-IsValid, take-IsValid, purge_entries-IsValid, run-IsValid,
}
use secretstash.Store.Cases.{decrement, burn}
use secretstash.Store.Countdown.{take_last}
use secretstash.Memory.{Memory, clone}
use secretstash.Crypto.{Box}

-- The store has no entry of id, and this tombstone.
pub record Remembers (id : SecretId) (t : Tombstone) (s : Store) : Type 0 where
  pub no_entry : lookup_entry id s ≡ none
  pub tomb : lookup_tomb id s ≡ some t

-- A call that reads the clock before this time, and puts nothing under id.
abbrev pub IsBefore : SecretId → Time → Call → Type 0
IsBefore id end (puts now f ttl reads) = f.lookup_id ≢ id
IsBefore id end (takes now later j) = now < end
IsBefore id end (peeks now later j) = now < end
IsBefore id end (revokes now later j) = now < end
IsBefore id end (purges now clock) = now < end

module _ (id : SecretId) (t : Tombstone) where
  Remembers-Frame : {s s' : Store} → Frame id s s' → Remembers id t s → Remembers id t s'
  Remembers-Frame f k = record { no_entry = f.entry ∙ k.no_entry; tomb = f.tomb ∙ k.tomb }

  told_self :
      (s : Store) (now later : Time)
      → Remembers id t s
      → now < t.expires_at
      → live_locked s now later id ≡ (s, gone t.reason t.at)
  told_self s now later k h = live_locked_told s now later id t k.no_entry k.tomb h

  Remembers-purge_entries :
      (now : Time) (clock : SecretId → Time) (m : Assoc SecretId Entry) (s : Store)
      → lookup bytes_dec id m ≡ none
      → Remembers id t s
      → Remembers id t (purge_entries now clock m s)
  unfolding purge_entries lookup
  Remembers-purge_entries now clock [] s n k = k
  Remembers-purge_entries now clock ((j, e) ∷ m) s n k = elim (bytes_dec j id) [
    | yes p ↦
        absurd (present (sym (if_pos (bytes_dec j id) p (some e) (lookup bytes_dec id m)) ∙ n))
    | no p ↦
        Remembers-purge_entries now clock m _
          (sym (if_neg (bytes_dec j id) p (some e) (lookup bytes_dec id m)) ∙ n)
          (one p (ltb now e.expires_at))
  ]
    where
      present : some e ≡ none → ⊥
      present q = cc

      one : j ≢ id → (b : Bool) → Remembers id t (if b then s else bury s (clock j) j expired e)
      one p true = k
      one p false = Remembers-Frame (Frame-bury j id p s (clock j) expired e) k

  -- The tombstones that are still to visit have none of id, or this one.
  Remembers-purge_tombs :
      (now : Time) (m : Assoc SecretId Tombstone) (s : Store)
      → now < t.expires_at
      → Distinct bytes_dec m
      → (lookup bytes_dec id m ≡ none) ⊎ (lookup bytes_dec id m ≡ some t)
      → Remembers id t s
      → Remembers id t (purge_tombs now m s)
  unfolding purge_tombs
  Remembers-purge_tombs now [] s h d c k = k
  Remembers-purge_tombs now ((j, u) ∷ m) s h d c k = elim (bytes_dec j id) [
    | yes p ↦
        let same : u ≡ t = this p c in
        Remembers-purge_tombs now m _ h d.1 (inl (ap (λ i. lookup bytes_dec i m) (sym p) ∙ d.0))
          (rw (ap (λ (v : Tombstone). ltb now v.expires_at) same ∙ lt→ltb now t.expires_at h) k)
    | no p ↦ Remembers-purge_tombs now m _ h d.1 (rest p c) (one p (ltb now u.expires_at))
  ]
    where
      head : j ≡ id → lookup bytes_dec id ((j, u) ∷ m) ≡ some u
      head p = unfold lookup in if_pos (bytes_dec j id) p (some u) (lookup bytes_dec id m)

      tail : j ≢ id → lookup bytes_dec id ((j, u) ∷ m) ≡ lookup bytes_dec id m
      tail p = unfold lookup in if_neg (bytes_dec j id) p (some u) (lookup bytes_dec id m)

      this :
          j ≡ id
          → (lookup bytes_dec id ((j, u) ∷ m) ≡ none) ⊎ (lookup bytes_dec id ((j, u) ∷ m) ≡ some t)
          → u ≡ t
      this p (inl e) = absurd (let q : some u ≡ none = sym (head p) ∙ e in cc)
      this p (inr e) = let q : some u ≡ some t = sym (head p) ∙ e in cc

      rest :
          j ≢ id
          → (lookup bytes_dec id ((j, u) ∷ m) ≡ none) ⊎ (lookup bytes_dec id ((j, u) ∷ m) ≡ some t)
          → (lookup bytes_dec id m ≡ none) ⊎ (lookup bytes_dec id m ≡ some t)
      rest p (inl e) = inl (sym (tail p) ∙ e)
      rest p (inr e) = inr (sym (tail p) ∙ e)

      one : j ≢ id → (b : Bool) → Remembers id t (if b then s else drop_tomb j s)
      one p true = k
      one p false = record {
        no_entry = k.no_entry;
        tomb = lookup-delete bytes_dec j id s.tombs ∙ if_neg (bytes_dec j id) p _ _ ∙ k.tomb;
      }

  pub Remembers-take :
      (s : Store) (now later : Time)
      → now < t.expires_at
      → Remembers id t s
      → take s now later id ≡ (s, gone t.reason t.at)
  unfolding take take_answer
  Remembers-take s now later h k = ap (take_answer later id) (told_self s now later k h)

  pub Remembers-peek :
      (s : Store) (now later : Time)
      → now < t.expires_at
      → Remembers id t s
      → peek s now later id ≡ (s, gone t.reason t.at)
  unfolding peek
  Remembers-peek s now later h k = told_self s now later k h

  pub Remembers-revoke :
      (s : Store) (now later : Time)
      → now < t.expires_at
      → Remembers id t s
      → revoke s now later id ≡ (s, gone t.reason t.at)
  unfolding revoke revoke_answer
  Remembers-revoke s now later h k = ap (revoke_answer later id) (told_self s now later k h)

  -- A call on an ID, by whether it is this one.
  pub on_any :
      (f : SecretId → Store) (s : Store)
      → (f id ≡ s)
      → ((j : SecretId) → j ≢ id → Frame id s (f j))
      → (j : SecretId) → Remembers id t s
      → Remembers id t (f j)
  on_any f s self other j k = elim (bytes_dec j id) [
    | yes p ↦ subst (λ u. Remembers id t u) (sym (ap f p ∙ self)) k
    | no p ↦ Remembers-Frame (other j p) k
  ]

  pub put-Remembers :
      (s : Store) (now : Time) (f : Box) (ttl reads : ℤ)
      → f.lookup_id ≢ id
      → Remembers id t s
      → Remembers id t (put (seal_into s f) now (sealed_of s f) ttl reads).0
  unfolding put
  put-Remembers s now f ttl reads p k = elim (Bool-cases (leb s.max_secrets (size s.entries))) [
    | inl full ↦ rw full (record { no_entry = k.no_entry; tomb = k.tomb })
    | inr room ↦ rw room (
        Remembers-Frame
          (Frame-set_entry f.lookup_id id p (seal_into s f)
            (new_entry now (sealed_of s f) ttl reads))
          (record { no_entry = k.no_entry; tomb = k.tomb }))
  ]

  pub purge-Remembers :
      (s : Store) (now : Time) (clock : SecretId → Time)
      → IsValid s
      → now < t.expires_at
      → Remembers id t s
      → Remembers id t (purge s now clock)
  unfolding purge
  purge-Remembers s now clock v h k =
      let s' = purge_entries now clock s.entries s in
      let k' = Remembers-purge_entries now clock s.entries s k.no_entry k in
      let v' = purge_entries-IsValid now clock s.entries s v in
      Remembers-purge_tombs now s'.tombs s' h v'.bounded.tombs_distinct (inr k'.tomb) k'
