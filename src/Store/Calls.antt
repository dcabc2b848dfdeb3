-- ===== src/Store/Calls.antt =====
-- Histories: the operations as the server calls them, one after the other under the lock.
use secretstash.Base.{◌≡◌, refl, List, [], ◌∷◌, ◌++◌}
use secretstash.Base.Int.{ℤ}
use secretstash.Crypto.{Box}
use secretstash.Memory.{alloc}
use secretstash.Store.{Time, SecretId, Sealed, Store, put, take, peek, revoke, purge}

pub data Call : Type 0 where
  puts : Time → Box → ℤ → ℤ → Call
  takes : Time → Time → SecretId → Call
  peeks : Time → Time → SecretId → Call
  revokes : Time → Time → SecretId → Call
  purges : Time → (SecretId → Time) → Call

-- The slice that Seal allocates.
abbrev pub seal_into : Store → Box → Store
seal_into s f = record s { memory = alloc s.memory f.ciphertext }

abbrev pub sealed_of : Store → Box → Sealed
sealed_of s f = record {
  lookup_id = f.lookup_id;
  ciphertext = s.memory.next;
  salt = f.salt;
  nonce = f.nonce;
}

unfoldable pub step : Store → Call → Store
step s (puts now f ttl reads) = (put (seal_into s f) now (sealed_of s f) ttl reads).0
step s (takes now later id) = (take s now later id).0
step s (peeks now later id) = (peek s now later id).0
step s (revokes now later id) = (revoke s now later id).0
step s (purges now clock) = purge s now clock

unfoldable pub run : Store → List Call → Store
run s [] = s
run s (c ∷ cs) = run (step s c) cs

pub run-append : (s : Store) (cs ds : List Call) → run s (cs ++ ds) ≡ run (run s cs) ds
unfolding run
run-append s [] ds = refl
run-append s (c ∷ cs) ds = run-append (step s c) cs ds
