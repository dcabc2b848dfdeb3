-- ===== src/Store/Ownership.antt =====
-- Which entries there are, and which slice each of them owns.
use secretstash.Base.{
  ℕ, ◌≤◌, ◌<◌, ◌≡◌, ◌≢◌, refl, sym, ap, ◌∙◌, ite, if_pos, if_neg, none, some, Bool-cases, ◌⊎◌, inl,
  inr, size, bytes_dec, lookup-insert, leb, arith,
}
use secretstash.Base.Int.{ℤ}
use secretstash.Memory.{clone, wipe}
use secretstash.Store.{
  Time, SecretId, Reason, Sealed, Entry, new_entry, Store, lookup_entry, set_entry, drop_tomb, bury,
  put,
}
use secretstash.Crypto.{Box}
use secretstash.Store.Calls.{seal_into, sealed_of}
use secretstash.Store.Frame.{lookup_entry-bury}

-- Every entry of t was an entry of s, with the same ciphertext; no slice was given back.
pub record Keeps (s t : Store) : Type 0 where
  pub entry :
      (j : SecretId) (e : Entry)
      → lookup_entry j t ≡ some e
      → (e' : Entry) × (lookup_entry j s ≡ some e') × (e.sealed ≡ e'.sealed)
  pub next : s.memory.next ≤ t.memory.next

pub Keeps-refl : (s : Store) → Keeps s s
Keeps-refl s = record { entry = λ j e h. (e, h, refl); next = omega arith }

pub Keeps-trans : {s t u : Store} → Keeps s t → Keeps t u → Keeps s u
Keeps-trans p q = record {
  entry = λ j e h.
      let (e1, h1, q1) = q.entry j e h in let (e2, h2, q2) = p.entry j e1 h1 in (e2, h2, q1 ∙ q2);
  next = omega (arith, p.next, q.next);
}

next-bury :
    (s : Store) (now : Time) (id : SecretId) (r : Reason) (e : Entry)
    → (bury s now id r e).memory.next ≡ s.memory.next
unfolding bury wipe
next-bury s now id r e = ground arith

pub Keeps-bury :
    (s : Store) (now : Time) (id : SecretId) (r : Reason) (e : Entry) → Keeps s (bury s now id r e)
Keeps-bury s now id r e = record {
  entry = λ j x h. (x, kept j x (sym (lookup_entry-bury s now id j r e) ∙ h), refl);
  next = omega (arith, next-bury s now id r e);
}
  where
    kept :
        (j : SecretId) (x : Entry)
        → ite (bytes_dec id j) none (lookup_entry j s) ≡ some x
        → lookup_entry j s ≡ some x
    kept j x h = ground arith

pub set_entry-cases :
    (s : Store) (id : SecretId) (e' : Entry) (j : SecretId) (e : Entry)
    → lookup_entry j (set_entry id e' s) ≡ some e
    → ((id ≡ j) × (e ≡ e')) ⊎ ((id ≢ j) × (lookup_entry j s ≡ some e))
set_entry-cases s id e' j e h = elim (bytes_dec id j) [
  | yes p ↦ inl (p, some_eq (sym (l ∙ if_pos (bytes_dec id j) p _ _) ∙ h))
  | no p ↦ inr (p, sym (l ∙ if_neg (bytes_dec id j) p _ _) ∙ h)
]
  where
    l : lookup_entry j (set_entry id e' s) ≡ ite (bytes_dec id j) (some e') (lookup_entry j s)
    l = lookup-insert bytes_dec id j e' s.entries

    some_eq : some e' ≡ some e → e ≡ e'
    some_eq q = cc

pub Keeps-set_entry :
    (s : Store) (id : SecretId) (e e' : Entry)
    → lookup_entry id s ≡ some e
    → e'.sealed ≡ e.sealed
    → Keeps s (set_entry id e' s)
Keeps-set_entry s id e e' l q = record {
  entry = λ j x h. elim (set_entry-cases s id e' j x h) [
    | inl (p, same) ↦
        (e, sym (ap (λ i. lookup_entry i s) p) ∙ l, ap (λ (y : Entry). y.sealed) same ∙ q)
    | inr (p, kept) ↦ (x, kept, refl)
  ];
  next = omega arith;
}

pub Keeps-clone : (s : Store) (a : ℕ) → Keeps s (record s { memory = clone s.memory a })
unfolding clone
Keeps-clone s a = record { entry = λ j e h. (e, h, refl); next = omega arith }

pub Keeps-drop_tomb : (s : Store) (id : SecretId) → Keeps s (drop_tomb id s)
Keeps-drop_tomb s id = record { entry = λ j e h. (e, h, refl); next = omega arith }

-- An entry lies under its own ID, its ciphertext is in use, and no other entry has that slice.
pub record Owns (s : Store) : Type 0 where
  pub keyed : (j : SecretId) (e : Entry) → lookup_entry j s ≡ some e → e.sealed.lookup_id ≡ j
  pub allocated :
      (j : SecretId) (e : Entry) → lookup_entry j s ≡ some e → e.sealed.ciphertext < s.memory.next
  pub unshared :
      (i j : SecretId) (e f : Entry)
      → lookup_entry i s ≡ some e
      → lookup_entry j s ≡ some f
      → i ≢ j
      → e.sealed.ciphertext ≢ f.sealed.ciphertext

pub Owns-Keeps : {s t : Store} → Keeps s t → Owns s → Owns t
Owns-Keeps k o = record {
  keyed = λ j e h.
      let (e', l, q) = k.entry j e h in ap (λ (x : Sealed). x.lookup_id) q ∙ o.keyed j e' l;
  allocated = λ j e h.
      let (e', l, q) = k.entry j e h in
      omega (arith, o.allocated j e' l, ap (λ (x : Sealed). x.ciphertext) q, k.next);
  unshared = λ i j e f h h' n p.
      let (e', l, q) = k.entry i e h in
      let (f', l', q') = k.entry j f h' in
      o.unshared i j e' f' l l' n
        (sym (ap (λ (x : Sealed). x.ciphertext) q) ∙ p ∙ ap (λ (x : Sealed). x.ciphertext) q');
}

pub put-Owns :
    (s : Store) (now : Time) (f : Box) (ttl reads : ℤ)
    → Owns s
    → Owns (put (seal_into s f) now (sealed_of s f) ttl reads).0
unfolding put
put-Owns s now f ttl reads o = elim (Bool-cases (leb s.max_secrets (size s.entries))) [
  | inl full ↦ rw full (record {
    keyed = o.keyed;
    allocated = λ j e h. omega (arith, o.allocated j e h);
    unshared = o.unshared;
  })
  | inr room ↦ rw room (record {
    keyed = λ j e h. elim (at j e h) [
      | inl (p, q) ↦ ap (λ (x : Entry). x.sealed.lookup_id) q ∙ p
      | inr (p, l) ↦ o.keyed j e l
    ];
    allocated = λ j e h. elim (at j e h) [
      | inl (p, q) ↦ omega (arith, ap (λ (x : Entry). x.sealed.ciphertext) q)
      | inr (p, l) ↦ omega (arith, o.allocated j e l)
    ];
    unshared = λ i j e x h h' n same. elim (at i e h) [
      | inl (p, q) ↦ elim (at j x h') [
        | inl (p', q') ↦ n (sym p ∙ p')
        | inr (p', l') ↦
            omega (arith, same, ap (λ (y : Entry). y.sealed.ciphertext) q, o.allocated j x l')
      ]
      | inr (p, l) ↦ elim (at j x h') [
        | inl (p', q') ↦
            omega (arith, same, ap (λ (y : Entry). y.sealed.ciphertext) q', o.allocated i e l)
        | inr (p', l') ↦ o.unshared i j e x l l' n same
      ]
    ];
  })
]
  where
    fresh : Entry
    fresh = new_entry now (sealed_of s f) ttl reads

    at :
        (j : SecretId) (e : Entry)
        → lookup_entry j (set_entry f.lookup_id fresh s) ≡ some e
        → ((f.lookup_id ≡ j) × (e ≡ fresh)) ⊎ ((f.lookup_id ≢ j) × (lookup_entry j s ≡ some e))
    at = set_entry-cases s f.lookup_id fresh
