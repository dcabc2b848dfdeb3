-- ===== src/Store/Spec/Purge.antt =====
-- A purge drops the secrets that are over, and no others.
use secretstash.Base.{
  ◌≡◌, ◌≢◌, refl, sym, ap, ◌∙◌, if_pos, if_neg, [], ◌∷◌, Bool, Option, none, some, Option-cases,
  Bool-cases, true, false, inl, inr, Assoc, lookup, Distinct, bytes_dec, ltb, if◌then◌else◌,
}
use secretstash.Store.{
  Time, SecretId, expired, Entry, Tombstone, Store, lookup_entry, drop_tomb, bury, purge_entries,
  purge_tombs, purge,
}
use secretstash.Store.Ownership.{Owns, Owns-Keeps, Keeps-bury}
use secretstash.Store.Frame.{lookup_entry-bury}
use secretstash.Store.Shrinks.{purge_tombs-entries}
use secretstash.Store.Spec.{Secret, update, alive}
use secretstash.Store.Spec.View.{
  view, view_found, view_absent, view_same, update_self, update_other, update_same, view-bury,
  alive_found, alive_ended,
}

-- One round of the loop over the entries.
abbrev visit : Time → Time → SecretId → Entry → Store → Store
visit now at id e s = if ltb now e.expires_at then s else bury s at id expired e

-- What the loop does to a secret whose entry is still to visit.
abbrev visited : Time → Option Entry → Option Secret → Option Secret
visited now none x = x
visited now (some e) x = alive now x

module _ (s : Store) (o : Owns s) (now at : Time) (id : SecretId) (e : Entry)
    (l : lookup_entry id s ≡ some e) where
  view-visit :
      (j : SecretId) → view (visit now at id e s) j ≡ update id (alive now (view s id)) (view s) j
  view-visit j = elim (Bool-cases (ltb now e.expires_at)) [
    | inl h ↦ rw h (
        sym (
          update_same id j (alive now (view s id)) (view s)
            (view_found s id e l ∙ sym (alive_found s now id e l h))))
    | inr h ↦ rw h (
        view-bury s o id e l at expired e j refl
        ∙ ap (λ x. update id x (view s) j) (sym (alive_ended s now id e l h)))
  ]

  visit-Owns : Owns (visit now at id e s)
  visit-Owns = elim (Bool-cases (ltb now e.expires_at)) [
    | inl h ↦ rw h o
    | inr h ↦ rw h (Owns-Keeps (Keeps-bury s at id expired e) o)
  ]

  visit_other : (j : SecretId) → id ≢ j → lookup_entry j (visit now at id e s) ≡ lookup_entry j s
  visit_other j n = elim (Bool-cases (ltb now e.expires_at)) [
    | inl h ↦ rw h refl
    | inr h ↦ rw h (lookup_entry-bury s at id j expired e ∙ if_neg (bytes_dec id j) n _ _)
  ]

-- The entries that are still to visit are in the store.
IsPart : Assoc SecretId Entry → Store → Type 0
IsPart m s = (j : SecretId) (e : Entry) → lookup bytes_dec j m ≡ some e → lookup_entry j s ≡ some e

module _ (now : Time) (clock : SecretId → Time) where
  head_entry :
      (id j : SecretId) (e : Entry) (m : Assoc SecretId Entry)
      → id ≡ j
      → lookup bytes_dec j ((id, e) ∷ m) ≡ some e
  unfolding lookup
  head_entry id j e m p = if_pos (bytes_dec id j) p _ _

  tail_entry :
      (id j : SecretId) (e : Entry) (m : Assoc SecretId Entry)
      → id ≢ j
      → lookup bytes_dec j ((id, e) ∷ m) ≡ lookup bytes_dec j m
  unfolding lookup
  tail_entry id j e m n = if_neg (bytes_dec id j) n _ _

  IsPart-visit :
      (id : SecretId) (e : Entry) (m : Assoc SecretId Entry) (s : Store) (o : Owns s)
      → Distinct bytes_dec ((id, e) ∷ m)
      → IsPart ((id, e) ∷ m) s
      → IsPart m (visit now (clock id) id e s)
  unfolding IsPart
  IsPart-visit id e m s o d part j f h = elim (bytes_dec id j) [
    | yes p ↦ absurd (no_entry (sym d.0 ∙ ap (λ i. lookup bytes_dec i m) p ∙ h))
    | no n ↦
        visit_other s o now (clock id) id e (part id e (head_entry id id e m refl)) j n
        ∙ part j f (tail_entry id j e m n ∙ h)
  ]
    where
      no_entry : ◌≡◌ {A = Option Entry} none (some f) → ⊥
      no_entry q = cc

  view-purge_entries :
      (m : Assoc SecretId Entry) (s : Store) (j : SecretId)
      → Owns s
      → Distinct bytes_dec m
      → IsPart m s
      → view (purge_entries now clock m s) j ≡ visited now (lookup bytes_dec j m) (view s j)
  unfolding purge_entries IsPart
  view-purge_entries [] s j o d part = unfold lookup in refl
  view-purge_entries ((id, e) ∷ m) s j o d part =
      let l = part id e (head_entry id id e m refl) in
      view-purge_entries m (visit now (clock id) id e s) j (visit-Owns s o now (clock id) id e l)
        d.1 (IsPart-visit id e m s o d part)
      ∙ ap (visited now (lookup bytes_dec j m)) (view-visit s o now (clock id) id e l j)
      ∙ elim (bytes_dec id j) [
        | yes p ↦
            ap (λ x. visited now x (update id (alive now (view s id)) (view s) j))
              (sym (ap (λ i. lookup bytes_dec i m) p) ∙ d.0)
            ∙ update_self id j _ (view s) p
            ∙ ap (λ i. alive now (view s i)) p
            ∙ sym (ap (λ x. visited now x (view s j)) (head_entry id j e m p))
        | no n ↦
            ap (visited now (lookup bytes_dec j m)) (update_other id j _ (view s) n)
            ∙ sym (ap (λ x. visited now x (view s j)) (tail_entry id j e m n))
      ]

purge_tombs-memory :
    (now : Time) (m : Assoc SecretId Tombstone) (s : Store)
    → (purge_tombs now m s).memory ≡ s.memory
unfolding purge_tombs
purge_tombs-memory now [] s = refl
purge_tombs-memory now ((id, t) ∷ m) s = purge_tombs-memory now m _ ∙ one (ltb now t.expires_at)
  where
    one : (b : Bool) → (if b then s else drop_tomb id s).memory ≡ s.memory
    one true = refl
    one false = refl

-- A purge leaves exactly the secrets that have not expired.
pub view-purge :
    (s : Store)
    → Owns s
    → Distinct bytes_dec s.entries
    → (now : Time) (clock : SecretId → Time) (j : SecretId)
    → view (purge s now clock) j ≡ alive now (view s j)
unfolding purge
view-purge s o d now clock j =
    view_same s' (purge_tombs now s'.tombs s') j
      (ap (λ m. lookup bytes_dec j m) (purge_tombs-entries now s'.tombs s'))
      (λ f h. ap (λ m. m.cells f.sealed.ciphertext) (purge_tombs-memory now s'.tombs s'))
    ∙ view-purge_entries now clock s.entries s j o d (unfold IsPart in λ i e h. h)
    ∙ elim (Option-cases (lookup_entry j s)) [
      | inl n ↦
          ap (λ x. visited now x (view s j)) n
          ∙ view_absent s j n
          ∙ sym (ap (alive now) (view_absent s j n) ∙ unfold alive in refl)
      | inr (e, h) ↦ ap (λ x. visited now x (view s j)) h
    ]
  where
    s' : Store
    s' = purge_entries now clock s.entries s
