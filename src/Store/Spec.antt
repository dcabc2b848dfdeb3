-- ===== src/Store/Spec.antt =====
-- What internal/store/store.go promises of the secrets, without memory, limits or tombstones: a map from
-- IDs to values that nobody shares.
pub mod View
pub mod Purge
pub mod Refines
use mathlib.Core.Option
use secretstash.Base.{
  List, [], ◌∷◌, Option, none, some, Bool, true, false, bytes_dec, ite, ltb, if◌then◌else◌,
}
use secretstash.Base.Int.{ℤ, pred, is_nonpos}
use secretstash.Crypto.{Box}
use secretstash.Store.{Time, SecretId, add_time}
use secretstash.Store.Calls.{Call, puts, takes, peeks, revokes, purges}

pub record Secret : Type 0 where
  pub box : Box
  pub created_at : Time
  pub expires_at : Time
  pub reads_remaining : ℤ
  pub reads_total : ℤ

abbrev pub Secrets : Type 0
Secrets = SecretId → Option Secret

unfoldable pub update : SecretId → Option Secret → Secrets → Secrets
update id x a j = ite (bytes_dec id j) x (a j)

-- A secret up to its expiry.
unfoldable pub alive : Time → Option Secret → Option Secret
alive now none = none
alive now (some x) = if ltb now x.expires_at then some x else none

abbrev pub one_read : Secret → Secret
one_read x = record x { reads_remaining = pred x.reads_remaining }

-- What a read leaves.
unfoldable pub after_read : Option Secret → Option Secret
after_read none = none
after_read (some x) = if is_nonpos (pred x.reads_remaining) then none else some (one_read x)

abbrev pub new_secret : Time → Box → ℤ → ℤ → Secret
new_secret now box ttl reads = record {
  box = box;
  created_at = now;
  expires_at = add_time now ttl;
  reads_remaining = reads;
  reads_total = reads;
}

-- The secrets after a call, and the secret that it returns; `room` says if there is room for one more.
unfoldable pub step_spec : Bool → Call → Secrets → Secrets × Option Secret
unfolding update alive after_read
step_spec true (puts now box ttl reads) a =
    let x = some (new_secret now box ttl reads) in (update box.lookup_id x a, x)
step_spec false (puts now box ttl reads) a = (a, none)
step_spec room (takes now later id) a =
    (update id (after_read (alive now (a id))) a, Option.map one_read (alive now (a id)))
step_spec room (peeks now later id) a = (update id (alive now (a id)) a, alive now (a id))
step_spec room (revokes now later id) a = (update id none a, none)
step_spec room (purges now clock) a = (λ j. alive now (a j), none)

-- A history of the specification: for each call if there is room for one more secret, and what it hands
-- out.
pub data SpecRun : Secrets → List Call → List Bool → List (Option Secret) → Secrets → Type 0 where
  finished : {a : Secrets} → SpecRun a [] [] [] a
  called :
      {a b : Secrets} {c : Call} {cs : List Call} {rooms : List Bool} {xs : List (Option Secret)}
      (room : Bool)
      → SpecRun (step_spec room c a).0 cs rooms xs b
      → SpecRun a (c ∷ cs) (room ∷ rooms) ((step_spec room c a).1 ∷ xs) b
