-- ===== src/Memory.antt =====
-- Byte slices that share a backing array: a slice is an address, and writing through one address is
-- seen through every copy of it. Wipe is that of internal/crypto/crypto.go.
use secretstash.Base.{
  ℕ, ◌+◌, ◌≡◌, ◌≢◌, refl, ap, [], ◌∷◌, Bytes, length, replicate, arith, ◌==◌, if◌then◌else◌,
}

pub record Memory : Type 0 where
  -- The bytes at each address; addresses from `next` on are not in use.
  pub cells : ℕ → Bytes
  pub next : ℕ

abbrev pub write : Memory → ℕ → Bytes → Memory
write m a b = record m { cells = λ a'. if a' == a then b else m.cells a' }

-- A fresh slice with these bytes.
abbrev pub alloc : Memory → Bytes → Memory
alloc m b = record { cells = λ a'. if a' == m.next then b else m.cells a'; next = m.next + 1 }

-- bytes.Clone: the address of the copy is m.next.
unfoldable pub clone : Memory → ℕ → Memory
clone m a = alloc m (m.cells a)

-- for i := range b { b[i] = 0 }
unfoldable pub wipe_bytes : Bytes → Bytes
wipe_bytes [] = []
wipe_bytes (x ∷ b) = 0 ∷ wipe_bytes b

-- Wipe zeroes a slice in place.
unfoldable pub wipe : Memory → ℕ → Memory
unfolding wipe_bytes
wipe m a = write m a (wipe_bytes (m.cells a))

pub wipe_bytes-replicate : (b : Bytes) → wipe_bytes b ≡ replicate (length b) 0
unfolding wipe_bytes
wipe_bytes-replicate [] = refl
wipe_bytes-replicate (x ∷ b) = ap (◌∷◌ 0) (wipe_bytes-replicate b)

pub wipe_self : (m : Memory) (a : ℕ) → (wipe m a).cells a ≡ replicate (length (m.cells a)) 0
unfolding wipe
wipe_self m a = ground (arith, wipe_bytes-replicate (m.cells a))

pub wipe_ne : (m : Memory) (a b : ℕ) → b ≢ a → (wipe m a).cells b ≡ m.cells b
unfolding wipe
wipe_ne m a b h = ground arith

pub next-wipe : (m : Memory) (a : ℕ) → (wipe m a).next ≡ m.next
unfolding wipe
next-wipe m a = refl

-- The copy is fresh, and has the bytes of the original.
pub clone_copy : (m : Memory) (a : ℕ) → (clone m a).cells m.next ≡ m.cells a
unfolding clone
clone_copy m a = ground arith

pub clone_ne : (m : Memory) (a b : ℕ) → b ≢ m.next → (clone m a).cells b ≡ m.cells b
unfolding clone
clone_ne m a b h = ground arith
