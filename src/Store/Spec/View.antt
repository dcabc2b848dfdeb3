-- ===== src/Store/Spec/View.antt =====
-- The secrets that a store holds, seen as values.
use mathlib.Core.Option
use secretstash.Base.{
  ℕ, ◌≡◌, ◌≢◌, refl, sym, ap, ◌∙◌, if_pos, if_neg, Option, none, some, Option-cases, inl, inr,
  bytes_dec, lookup-insert, true, false, ltb, arith,
}
use secretstash.Memory.{wipe_ne, clone, clone_ne}
use secretstash.Store.{
  Time, SecretId, Reason, expired, Sealed, Entry, Store, lookup_entry, set_entry, bury,
}
use secretstash.Store.Cases.{Fate, CheckCase, DeadCase}
use secretstash.Store.Frame.{lookup_entry-bury}
use secretstash.Store.Delivery.{box_of, memory-bury}
use secretstash.Store.Ownership.{Owns}
use secretstash.Store.Spec.{Secret, Secrets, update, alive}

abbrev pub secret_of : Store → Entry → Secret
secret_of s e = record {
  box = box_of s e;
  created_at = e.created_at;
  expires_at = e.expires_at;
  reads_remaining = e.reads_remaining;
  reads_total = e.reads_total;
}

unfoldable pub view : Store → Secrets
view s id = Option.map (secret_of s) (lookup_entry id s)

pub view_found :
    (s : Store) (id : SecretId) (e : Entry)
    → lookup_entry id s ≡ some e
    → view s id ≡ some (secret_of s e)
unfolding view
view_found s id e l = ap (Option.map (secret_of s)) l

pub view_absent : (s : Store) (id : SecretId) → lookup_entry id s ≡ none → view s id ≡ none
unfolding view
view_absent s id l = ap (Option.map (secret_of s)) l

-- The same entry with the same bytes is the same secret.
pub view_same :
    (s t : Store) (j : SecretId)
    → lookup_entry j t ≡ lookup_entry j s
    → ((f : Entry)
        → lookup_entry j s ≡ some f
        → t.memory.cells f.sealed.ciphertext ≡ s.memory.cells f.sealed.ciphertext)
    → view t j ≡ view s j
view_same s t j l cells = elim (Option-cases (lookup_entry j s)) [
  | inl n ↦ view_absent t j (l ∙ n) ∙ sym (view_absent s j n)
  | inr (f, h) ↦
      view_found t j f (l ∙ h)
      ∙ ap (λ c. some (record (secret_of s f) { box = record (box_of s f) { ciphertext = c } }))
          (cells f h)
      ∙ sym (view_found s j f h)
]

pub update_self : (id j : SecretId) (x : Option Secret) (a : Secrets) → id ≡ j → update id x a j ≡ x
unfolding update
update_self id j x a p = if_pos (bytes_dec id j) p x (a j)

pub update_other :
    (id j : SecretId) (x : Option Secret) (a : Secrets) → id ≢ j → update id x a j ≡ a j
unfolding update
update_other id j x a p = if_neg (bytes_dec id j) p x (a j)

-- An update with what is there changes nothing.
pub update_same :
    (id j : SecretId) (x : Option Secret) (a : Secrets) → a id ≡ x → update id x a j ≡ a j
update_same id j x a h = elim (bytes_dec id j) [
  | yes p ↦ update_self id j x a p ∙ sym h ∙ ap a p
  | no p ↦ update_other id j x a p
]

module _ (s : Store) (o : Owns s) (id : SecretId) (e : Entry) (l : lookup_entry id s ≡ some e) where
  -- A burial wipes no other secret.
  pub view-bury :
      (now : Time) (r : Reason) (e' : Entry) (j : SecretId)
      → e'.sealed ≡ e.sealed
      → view (bury s now id r e') j ≡ update id none (view s) j
  view-bury now r e' j q = elim (bytes_dec id j) [
    | yes p ↦
        view_absent (bury s now id r e') j
          (lookup_entry-bury s now id j r e' ∙ if_pos (bytes_dec id j) p _ _)
        ∙ sym (update_self id j none (view s) p)
    | no p ↦
        view_same s (bury s now id r e') j
          (lookup_entry-bury s now id j r e' ∙ if_neg (bytes_dec id j) p _ _)
          (λ f h.
            ap (λ m. m.cells f.sealed.ciphertext) (memory-bury s now id r e')
            ∙ wipe_ne s.memory e'.sealed.ciphertext f.sealed.ciphertext (λ same.
              o.unshared id j e f l h p (sym (ap (λ (x : Sealed). x.ciphertext) q) ∙ sym same)))
        ∙ sym (update_other id j none (view s) p)
  ]

-- A copy of a slice changes no secret.
pub view-clone :
    (s : Store) (o : Owns s) (a : ℕ) (j : SecretId)
    → view (record s { memory = clone s.memory a }) j ≡ view s j
view-clone s o a j =
    view_same s (record s { memory = clone s.memory a }) j refl
      (λ f h.
        clone_ne s.memory a f.sealed.ciphertext
          (let lt = o.allocated j f h in λ p. absurd (omega arith)))

pub view-set_entry :
    (s : Store) (id : SecretId) (e : Entry) (j : SecretId)
    → view (set_entry id e s) j ≡ update id (some (secret_of s e)) (view s) j
view-set_entry s id e j = elim (bytes_dec id j) [
  | yes p ↦
      view_found (set_entry id e s) j e
        (lookup-insert bytes_dec id j e s.entries ∙ if_pos (bytes_dec id j) p _ _)
      ∙ sym (update_self id j _ (view s) p)
  | no p ↦
      view_same s (set_entry id e s) j
        (lookup-insert bytes_dec id j e s.entries ∙ if_neg (bytes_dec id j) p _ _) (λ f h. refl)
      ∙ sym (update_other id j _ (view s) p)
]

view-CheckCase :
    (id j : SecretId) {s s' : Store} {now : Time} {f : Fate}
    → CheckCase s now id s' f
    → view s' j ≡ view s j
unfolding view
view-CheckCase id j (CheckCase.told t l h) = refl
view-CheckCase id j (CheckCase.faded t l h) = refl
view-CheckCase id j (CheckCase.unseen l) = refl

pub view-DeadCase :
    (id j : SecretId) {s s' : Store} {now later : Time} {f : Fate}
    → Owns s
    → DeadCase s now later id s' f
    → view s' j ≡ update id none (view s) j
view-DeadCase id j {s} o (DeadCase.absent l c) =
    view-CheckCase id j c ∙ sym (update_same id j none (view s) (view_absent s id l))
view-DeadCase id j {s} {later = later} o (DeadCase.ran_out e l h c) =
    view-CheckCase id j c ∙ view-bury s o id e l later expired e j refl

pub alive_found :
    (s : Store) (now : Time) (id : SecretId) (e : Entry)
    → lookup_entry id s ≡ some e
    → ltb now e.expires_at ≡ true
    → alive now (view s id) ≡ some (secret_of s e)
unfolding alive
alive_found s now id e l h = ap (alive now) (view_found s id e l) ∙ rw h refl

pub alive_ended :
    (s : Store) (now : Time) (id : SecretId) (e : Entry)
    → lookup_entry id s ≡ some e
    → ltb now e.expires_at ≡ false
    → alive now (view s id) ≡ none
unfolding alive
alive_ended s now id e l h = ap (alive now) (view_found s id e l) ∙ rw h refl
