-- ===== src/Store/Handed/Lasting.antt =====
-- The bytes that Open reads, whatever calls come between it and the Take of internal/store/store.go.
use secretstash.Base.{
  ℕ, ◌<◌, ◌≤◌, ◌≡◌, ◌≢◌, refl, sym, ap, ◌∙◌, subst, List, [], ◌∷◌, some, true, false, Bool-cases,
  ◌⊎◌, inl, inr, Bytes, length, replicate, leb, size, arith,
}
use secretstash.Base.Int.{ℤ, pred, is_nonpos}
use secretstash.Crypto.{Box}
use secretstash.Memory.{wipe, wipe_bytes, wipe_bytes-replicate, clone}
use secretstash.Store.{
  Time, SecretId, consumed, Sealed, Entry, Store, Answer, found, lookup_entry, set_entry, put, take,
  peek,
}
use secretstash.Store.Cases.{decrement, detach, burn, live_locked-cases, take-cases, revoke-cases}
use secretstash.Store.Calls.{
  Call, puts, takes, peeks, revokes, purges, seal_into, sealed_of, step, run,
}
use secretstash.Store.Countdown.{take_more, take_last}
use secretstash.Store.Delivery.{box_of, memory-bury, cells-burn}
use secretstash.Store.Ownership.{Keeps, set_entry-cases}
use secretstash.Store.Valid.{
  IsValid, step-IsValid, take-IsValid, Steps-LiveCase, Steps-TakeCase, Steps-RevokeCase,
  Steps-purge,
}
use secretstash.Store.Handed.{wipe_bytes_twice, Touch, step-Touch}

-- The slice is in use, and no entry owns it.
record IsApart (a : ℕ) (s : Store) : Type 0 where
  allocated : a < s.memory.next
  unowned : (j : SecretId) (e : Entry) → lookup_entry j s ≡ some e → e.sealed.ciphertext ≢ a

next-step : (s : Store) (c : Call) → s.memory.next ≤ (step s c).memory.next
unfolding step peek put
next-step s (puts now f ttl n) = elim (Bool-cases (leb s.max_secrets (size s.entries))) [
  | inl h ↦ rw (h, step) (omega arith)
  | inr h ↦ rw (h, step) (omega arith)
]
next-step s (takes now later id) = (Steps-TakeCase id (take-cases s now later id)).keeps.next
next-step s (peeks now later id) = (Steps-LiveCase id (live_locked-cases s now later id)).keeps.next
next-step s (revokes now later id) = (Steps-RevokeCase id (revoke-cases s now later id)).keeps.next
next-step s (purges now clock) = (Steps-purge s now clock).keeps.next

module _ (a : ℕ) where
  IsApart-Keeps : {s t : Store} → Keeps s t → IsApart a s → IsApart a t
  IsApart-Keeps k p = record {
    allocated = omega (arith, p.allocated, k.next);
    unowned = λ j e h q.
        let (e', l, same) = k.entry j e h in
        p.unowned j e' l (sym (ap (λ (x : Sealed). x.ciphertext) same) ∙ q);
  }

  put-IsApart :
      (s : Store) (now : Time) (f : Box) (ttl n : ℤ)
      → IsApart a s
      → IsApart a (put (seal_into s f) now (sealed_of s f) ttl n).0
  unfolding put
  put-IsApart s now f ttl n p = elim (Bool-cases (leb s.max_secrets (size s.entries))) [
    | inl h ↦ rw h (record { allocated = omega (arith, p.allocated); unowned = p.unowned })
    | inr h ↦ rw h (record {
      allocated = omega (arith, p.allocated);
      unowned = λ j e l. elim (set_entry-cases s f.lookup_id _ j e l) [
        | inl (q, same) ↦ λ x.
            absurd (omega (arith, p.allocated, x, ap (λ (y : Entry). y.sealed.ciphertext) same))
        | inr (q, kept) ↦ p.unowned j e kept
      ];
    })
  ]

  step-IsApart : (s : Store) (c : Call) → IsApart a s → IsApart a (step s c)
  unfolding step peek
  step-IsApart s (puts now f ttl n) p = put-IsApart s now f ttl n p
  step-IsApart s (takes now later id) p =
      IsApart-Keeps (Steps-TakeCase id (take-cases s now later id)).keeps p
  step-IsApart s (peeks now later id) p =
      IsApart-Keeps (Steps-LiveCase id (live_locked-cases s now later id)).keeps p
  step-IsApart s (revokes now later id) p =
      IsApart-Keeps (Steps-RevokeCase id (revoke-cases s now later id)).keeps p
  step-IsApart s (purges now clock) p = IsApart-Keeps (Steps-purge s now clock).keeps p

  apart-Touch : {s t : Store} → IsApart a s → Touch a s s t → t.memory.cells a ≡ s.memory.cells a
  apart-Touch p (Touch.kept q) = q
  apart-Touch p (Touch.wiped j e l h q) = absurd (p.unowned j e l h)

  -- No call writes to a slice that no entry owns.
  run_apart :
      (s : Store) (cs : List Call)
      → IsValid s
      → IsApart a s
      → (run s cs).memory.cells a ≡ s.memory.cells a
  unfolding run
  run_apart s [] v p = refl
  run_apart s (c ∷ cs) v p =
      run_apart (step s c) cs (step-IsValid s c v) (step-IsApart s c p)
      ∙ apart-Touch p (step-Touch a s c v p.allocated)

  -- The bytes of the slice, or that many zeros.
  abbrev Fades : Store → Store → Type 0
  Fades s t =
      (t.memory.cells a ≡ s.memory.cells a) ⊎ (t.memory.cells a ≡ wipe_bytes (s.memory.cells a))

  Fades-Touch : (s t u : Store) → Touch a s s t → Fades t u → Fades s u
  Fades-Touch s t u (Touch.kept p) (inl q) = inl (q ∙ p)
  Fades-Touch s t u (Touch.kept p) (inr q) = inr (q ∙ ap wipe_bytes p)
  Fades-Touch s t u (Touch.wiped j e l h p) (inl q) = inr (q ∙ p)
  Fades-Touch s t u (Touch.wiped j e l h p) (inr q) =
      inr (q ∙ ap wipe_bytes p ∙ wipe_bytes_twice (s.memory.cells a))

  run-Fades : (s : Store) (cs : List Call) → IsValid s → a < s.memory.next → Fades s (run s cs)
  unfolding run
  run-Fades s [] v p = inl refl
  run-Fades s (c ∷ cs) v p =
      Fades-Touch s (step s c) (run (step s c) cs) (step-Touch a s c v p)
        (run-Fades (step s c) cs (step-IsValid s c v) (omega (arith, p, next-step s c)))

next-burn :
    (s : Store) (later : Time) (id : SecretId) (e : Entry)
    → s.memory.next < (burn s later id e).memory.next
unfolding wipe clone
next-burn s later id e =
    omega (arith, ap (λ m. m.next) (memory-bury _ later id consumed (decrement e)))

-- The secret of an entry with these bytes for its ciphertext.
abbrev pub box_with : Entry → Bytes → Box
box_with e c = record {
  lookup_id = e.sealed.lookup_id;
  ciphertext = c;
  salt = e.sealed.salt;
  nonce = e.sealed.nonce;
}

-- As many zeros as the ciphertext of an entry has bytes.
abbrev pub zeroed : Store → Entry → Bytes
zeroed s e = replicate (length (s.memory.cells e.sealed.ciphertext)) 0

-- What a Take of an entry in `s` handed out, as it reads in a later store: the secret that was stored, or,
-- if it was not the last read, zeros.
pub record Lasts (s : Store) (e : Entry) (answer : Answer Entry) (t : Store) : Type 0 where
  pub handed : Entry
  pub answered : answer ≡ found handed
  pub reads : handed.reads_remaining ≡ pred e.reads_remaining
  pub created : handed.created_at ≡ e.created_at
  pub box :
      (box_of t handed ≡ box_of s e)
      ⊎ ((is_nonpos (pred e.reads_remaining) ≡ false) × (box_of t handed ≡ box_with e (zeroed s e)))

module _ (s : Store) (now later : Time) (id : SecretId) (e : Entry) (after : List Call)
    (v : IsValid s) (l : lookup_entry id s ≡ some e) (h : now < e.expires_at) where
  run-take_more :
      is_nonpos (pred e.reads_remaining) ≡ false
      → Lasts s e (found (decrement e)) (run (set_entry id (decrement e) s) after)
  run-take_more z =
      let s' : Store = set_entry id (decrement e) s in
      let valid : IsValid s' =
        subst (λ r. IsValid r.0) (take_more s now later id e l h z)
          (take-IsValid s now later id v) in
      record {
        handed = decrement e;
        answered = refl;
        reads = refl;
        created = refl;
        box = elim (run-Fades e.sealed.ciphertext s' after valid (v.owns.allocated id e l)) [
          | inl q ↦ inl (ap (box_with e) q)
          | inr q ↦ inr (z, ap (box_with e) (q ∙ wipe_bytes-replicate _))
        ];
      }

  -- The copy that the last read hands out is nobody's.
  burn-IsApart :
      Keeps s (burn s later id e)
      → s.memory.next < (burn s later id e).memory.next
      → IsApart s.memory.next (burn s later id e)
  burn-IsApart k n = record {
    allocated = n;
    unowned = λ j x l' q.
        let (x', l'', same) = k.entry j x l' in
        absurd
          (omega (arith, q, v.owns.allocated j x' l'', ap (λ (y : Sealed). y.ciphertext) same));
  }

  run-take_last :
      is_nonpos (pred e.reads_remaining) ≡ true
      → Lasts s e (found (detach s (decrement e))) (run (burn s later id e) after)
  run-take_last z =
      let last = take_last s now later id e l h z in
      let steps = Steps-TakeCase id (take-cases s now later id) in
      let valid = subst (λ r. IsValid r.0) last (take-IsValid s now later id v) in
      let keeps = subst (λ r. Keeps s r.0) last steps.keeps in
      let apart = burn-IsApart keeps (next-burn s later id e) in
      record {
        handed = detach s (decrement e);
        answered = refl;
        reads = refl;
        created = refl;
        box = inl (
            ap (box_with e) (
              run_apart s.memory.next (burn s later id e) after valid apart
              ∙ cells-burn s later id e (v.owns.allocated id e l)));
      }

  -- What a Take of a live entry hands out reads as it was stored after whatever calls come next; or as zeros,
  -- but only if it was not the last read.
  pub run-take : Lasts s e (take s now later id).1 (run (take s now later id).0 after)
  run-take = elim (Bool-cases (is_nonpos (pred e.reads_remaining))) [
    | inr z ↦
        subst (λ r. Lasts s e r.1 (run r.0 after)) (sym (take_more s now later id e l h z))
          (run-take_more z)
    | inl z ↦
        subst (λ r. Lasts s e r.1 (run r.0 after)) (sym (take_last s now later id e l h z))
          (run-take_last z)
  ]
