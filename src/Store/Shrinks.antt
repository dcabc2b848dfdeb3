-- ===== src/Store/Shrinks.antt =====
-- No operation but Put gives an ID another entry, save that a read counts down.
use secretstash.Base.{
  ◌≡◌, refl, ap, ◌∙◌, if_pos, if_neg, [], ◌∷◌, none, Bool, true, false, Assoc, lookup, bytes_dec,
  ltb, if◌then◌else◌,
}
use secretstash.Store.{
  Answer, Time, SecretId, Reason, expired, revoked, Entry, Tombstone, Store, lookup_entry,
  drop_tomb, bury, purge_entries, purge_tombs, purge,
}
use secretstash.Store.Cases.{Fate, CheckCase, DeadCase, LiveCase, RevokeCase}
use secretstash.Store.Frame.{lookup_entry-bury}

-- The entry of id stays as it is, or goes.
pub data Shrinks (id : SecretId) (s t : Store) : Type 0 where
  goes : lookup_entry id t ≡ none → Shrinks id s t
  stays : lookup_entry id t ≡ lookup_entry id s → Shrinks id s t

pub Shrinks-trans :
    (id : SecretId) {s t u : Store} → Shrinks id s t → Shrinks id t u → Shrinks id s u
Shrinks-trans id p (goes q) = goes q
Shrinks-trans id (goes p) (stays q) = goes (q ∙ p)
Shrinks-trans id (stays p) (stays q) = stays (q ∙ p)

pub Shrinks-bury :
    (id j : SecretId) (s : Store) (now : Time) (r : Reason) (e : Entry)
    → Shrinks j s (bury s now id r e)
Shrinks-bury id j s now r e = elim (bytes_dec id j) [
  | yes p ↦ goes (lookup_entry-bury s now id j r e ∙ if_pos (bytes_dec id j) p _ _)
  | no p ↦ stays (lookup_entry-bury s now id j r e ∙ if_neg (bytes_dec id j) p _ _)
]

module _ (id j : SecretId) where
  Shrinks-CheckCase :
      {s s' : Store} {now : Time} {f : Fate} → CheckCase s now id s' f → Shrinks j s s'
  Shrinks-CheckCase (CheckCase.told t l h) = stays refl
  Shrinks-CheckCase (CheckCase.faded t l h) = stays refl
  Shrinks-CheckCase (CheckCase.unseen l) = stays refl

  pub Shrinks-DeadCase :
      {s s' : Store} {now later : Time} {f : Fate} → DeadCase s now later id s' f → Shrinks j s s'
  Shrinks-DeadCase (DeadCase.absent l c) = Shrinks-CheckCase c
  Shrinks-DeadCase {s} {later = later} (DeadCase.ran_out e l h c) =
      Shrinks-trans j (Shrinks-bury id j s later expired e) (Shrinks-CheckCase c)

  pub Shrinks-LiveCase :
      {s : Store} {now later : Time} {r : Store × Answer Entry}
      → LiveCase s now later id r
      → Shrinks j s r.0
  Shrinks-LiveCase (LiveCase.alive e l h) = stays refl
  Shrinks-LiveCase (LiveCase.dead d) = Shrinks-DeadCase d

  pub Shrinks-RevokeCase :
      {s : Store} {now later : Time} {r : Store × Answer (Unit {0})}
      → RevokeCase s now later id r
      → Shrinks j s r.0
  Shrinks-RevokeCase {s} {later = later} (RevokeCase.removed e l h) =
      Shrinks-bury id j s later revoked e
  Shrinks-RevokeCase (RevokeCase.refused d) = Shrinks-DeadCase d

Shrinks-purge_entries :
    (j : SecretId) (now : Time) (clock : SecretId → Time) (m : Assoc SecretId Entry) (s : Store)
    → Shrinks j s (purge_entries now clock m s)
unfolding purge_entries
Shrinks-purge_entries j now clock [] s = stays refl
Shrinks-purge_entries j now clock ((id, e) ∷ m) s =
    Shrinks-trans j (one (ltb now e.expires_at)) (Shrinks-purge_entries j now clock m _)
  where
    one : (b : Bool) → Shrinks j s (if b then s else bury s (clock id) id expired e)
    one true = stays refl
    one false = Shrinks-bury id j s (clock id) expired e

pub purge_tombs-entries :
    (now : Time) (m : Assoc SecretId Tombstone) (s : Store)
    → (purge_tombs now m s).entries ≡ s.entries
unfolding purge_tombs
purge_tombs-entries now [] s = refl
purge_tombs-entries now ((id, t) ∷ m) s = purge_tombs-entries now m _ ∙ one (ltb now t.expires_at)
  where
    one : (b : Bool) → (if b then s else drop_tomb id s).entries ≡ s.entries
    one true = refl
    one false = refl

pub Shrinks-purge :
    (j : SecretId) (s : Store) (now : Time) (clock : SecretId → Time)
    → Shrinks j s (purge s now clock)
unfolding purge
Shrinks-purge j s now clock =
    Shrinks-trans j (Shrinks-purge_entries j now clock s.entries s)
      (stays (ap (λ m. lookup bytes_dec j m) (purge_tombs-entries now _ _)))
