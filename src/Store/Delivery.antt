-- ===== src/Store/Delivery.antt =====
-- What a Take hands out: the ciphertext as it was stored, and on the last read a copy of it.
use secretstash.Base.{
  ◌<◌, ◌≡◌, refl, ap, ◌∙◌, some, true, false, Bool-cases, inl, inr, arith, length, replicate,
}
use secretstash.Base.Int.{pred, is_nonpos}
use secretstash.Crypto.{Box}
use secretstash.Memory.{clone, wipe, wipe_self, wipe_ne, clone_copy, clone_ne}
use secretstash.Store.{
  Answer, found, Time, SecretId, Reason, consumed, revoked, Entry, Store, lookup_entry, set_entry,
  bury, take, revoke, revoke_answer,
}
use secretstash.Store.Cases.{decrement, detach, burn}
use secretstash.Store.Countdown.{live_locked_alive, take_more, take_last, lookup_entry-set_entry}

-- The secret of an entry as crypto.Open reads it.
abbrev pub box_of : Store → Entry → Box
box_of s e = record {
  lookup_id = e.sealed.lookup_id;
  ciphertext = s.memory.cells e.sealed.ciphertext;
  salt = e.sealed.salt;
  nonce = e.sealed.nonce;
}

-- An answer that hands out the secret of an entry with one read less.
pub record Delivers (s : Store) (e : Entry) (r : Store × Answer Entry) : Type 0 where
  pub handed : Entry
  pub answer : r.1 ≡ found handed
  pub box : box_of r.0 handed ≡ box_of s e
  pub reads : handed.reads_remaining ≡ pred e.reads_remaining
  pub created : handed.created_at ≡ e.created_at

pub memory-bury :
    (s : Store) (now : Time) (id : SecretId) (r : Reason) (e : Entry)
    → (bury s now id r e).memory ≡ wipe s.memory e.sealed.ciphertext
unfolding bury
memory-bury s now id r e = ground arith

pub cells-burn :
    (s : Store) (later : Time) (id : SecretId) (e : Entry)
    → e.sealed.ciphertext < s.memory.next
    → (burn s later id e).memory.cells s.memory.next ≡ s.memory.cells e.sealed.ciphertext
cells-burn s later id e h =
    ap (λ m. m.cells s.memory.next) (memory-bury _ later id consumed (decrement e))
    ∙ wipe_ne (clone s.memory e.sealed.ciphertext) e.sealed.ciphertext s.memory.next
        (λ p. absurd (omega arith))
    ∙ clone_copy s.memory e.sealed.ciphertext

-- A Take of a live entry whose slice is allocated hands out its secret unharmed and with one read
-- less, on the last read too, where the store wipes its own slice.
pub take-Delivers :
    (s : Store) (now later : Time) (id : SecretId) (e : Entry)
    → lookup_entry id s ≡ some e
    → now < e.expires_at
    → e.sealed.ciphertext < s.memory.next
    → Delivers s e (take s now later id)
take-Delivers s now later id e l h a = elim (Bool-cases (is_nonpos (pred e.reads_remaining))) [
  | inr z ↦
      rw (take_more s now later id e l h z)
        (record { handed = decrement e; answer = refl; box = refl; reads = refl; created = refl })
  | inl z ↦ rw (take_last s now later id e l h z) (record {
    handed = detach s (decrement e);
    answer = refl;
    box =
        ap
          (λ c. record {
            lookup_id = e.sealed.lookup_id;
            ciphertext = c;
            salt = e.sealed.salt;
            nonce = e.sealed.nonce;
          })
          (cells-burn s later id e a);
    reads = refl;
    created = refl;
  })
]

-- After the last read of a live entry whose slice is allocated, every byte of that slice is zero.
pub cells-take_last :
    (s : Store) (now later : Time) (id : SecretId) (e : Entry)
    → lookup_entry id s ≡ some e
    → now < e.expires_at
    → is_nonpos (pred e.reads_remaining) ≡ true
    → e.sealed.ciphertext < s.memory.next
    → (take s now later id).0.memory.cells e.sealed.ciphertext
      ≡ replicate (length (s.memory.cells e.sealed.ciphertext)) 0
cells-take_last s now later id e l h z a =
    ap (λ r. r.0.memory.cells e.sealed.ciphertext) (take_last s now later id e l h z)
    ∙ ap (λ m. m.cells e.sealed.ciphertext) (memory-bury _ later id consumed (decrement e))
    ∙ wipe_self (clone s.memory e.sealed.ciphertext) e.sealed.ciphertext
    ∙ ap (λ b. replicate (length b) 0)
        (clone_ne s.memory e.sealed.ciphertext e.sealed.ciphertext (λ p. absurd (omega arith)))

-- A Take of a live entry that is not its last hands out the slice of the store itself: a Revoke
-- right after it and before the expiry sets every byte of that slice to zero.
pub cells-revoke-take :
    (s : Store) (now later now' later' : Time) (id : SecretId) (e : Entry)
    → lookup_entry id s ≡ some e
    → now < e.expires_at
    → now' < e.expires_at
    → is_nonpos (pred e.reads_remaining) ≡ false
    → ((take s now later id).1 ≡ found (decrement e))
      × ((revoke (take s now later id).0 now' later' id).0.memory.cells
            (decrement e).sealed.ciphertext
          ≡ replicate (length (s.memory.cells e.sealed.ciphertext)) 0)
unfolding revoke revoke_answer
cells-revoke-take s now later now' later' id e l h h' z = rw (take_more s now later id e l h z) (
  refl,
  ap (λ r. (revoke_answer later' id r).0.memory.cells e.sealed.ciphertext)
        (live_locked_alive (set_entry id (decrement e) s) now' later' id (decrement e)
          (lookup_entry-set_entry id (decrement e) s) h')
      ∙ ap (λ m. m.cells e.sealed.ciphertext) (memory-bury _ later' id revoked (decrement e))
      ∙ wipe_self s.memory e.sealed.ciphertext,
)
