-- ===== src/Store/Spec/Refines.antt =====
-- The store implements its specification: every history of the store is one of the specification.
use mathlib.Core.Option
use mathlib.Core.Path.{fun_ext}
use secretstash.Base.{
  ◌≡◌, refl, sym, ap, ◌∙◌, subst, List, [], ◌∷◌, Option, none, some, Bool, true, false, Bool-cases,
  inl, inr, size, lookup, ltb, leb, lt→ltb, arith,
}
use secretstash.Base.Int.{ℤ}
use secretstash.Crypto.{Box}
use secretstash.Memory.{Memory, clone}
use secretstash.Store.{
  Time, SecretId, consumed, revoked, Entry, new_entry, Store, new, Answer, missing, found, gone,
  put, take, peek, purge,
}
use secretstash.Store.Cases.{
  Fate, refusal, decrement, DeadCase, LiveCase, TakeCase, RevokeCase, live_locked-cases, take-cases,
  revoke-cases,
}
use secretstash.Store.Calls.{
  Call, puts, takes, peeks, revokes, purges, seal_into, sealed_of, step, run,
}
use secretstash.Store.Ownership.{Owns, Owns-Keeps, Keeps-clone}
use secretstash.Store.Spec.Purge.{view-purge}
use secretstash.Store.Valid.{IsValid, step-IsValid, new-IsValid, run-IsValid}
use secretstash.Store.Delivery.{cells-burn}
use secretstash.Store.Spec.{
  Secret, update, alive, one_read, after_read, new_secret, step_spec, SpecRun, finished, called,
}
use secretstash.Store.Spec.View.{
  secret_of, view, view_found, view_absent, view_same, update_same, view-bury, view-clone,
  view-set_entry, view-DeadCase, alive_found, alive_ended,
}

-- The secret that an answer hands out, read from the memory of the store.
abbrev pub seen : Store × Answer Entry → Option Secret
seen (s, missing) = none
seen (s, gone reason at) = none
seen (s, found e) = some (secret_of s e)

-- The secret that Put returns the entry of.
abbrev pub stored : Store × Option Entry → Option Secret
stored (s, e) = Option.map (secret_of s) e

abbrev pub handed : Store → Call → Option Secret
handed s (puts now f ttl reads) = stored (put (seal_into s f) now (sealed_of s f) ttl reads)
handed s (takes now later id) = seen (take s now later id)
handed s (peeks now later id) = seen (peek s now later id)
handed s (revokes now later id) = none
handed s (purges now clock) = none

abbrev pub run_handed : Store → List Call → List (Option Secret)
run_handed s [] = []
run_handed s (c ∷ cs) = handed s c ∷ run_handed (step s c) cs

-- If the store holds fewer secrets than it may, before each call.
abbrev pub has_room : Store → Bool
has_room s = ltb (size s.entries) s.max_secrets

abbrev pub run_rooms : Store → List Call → List Bool
run_rooms s [] = []
run_rooms s (c ∷ cs) = has_room s ∷ run_rooms (step s c) cs

-- What a call did is what the specification does.
record Follows (room : Bool) (c : Call) (s t : Store) (x : Option Secret) : Type 0 where
  state : (j : SecretId) → view t j ≡ (step_spec room c (view s)).0 j
  answer : x ≡ (step_spec room c (view s)).1

alive_dead :
    {s s' : Store} {now later : Time} {id : SecretId} {f : Fate}
    → DeadCase s now later id s' f
    → alive now (view s id) ≡ none
alive_dead {s} {now = now} {id = id} (DeadCase.absent l c) =
    ap (alive now) (view_absent s id l) ∙ unfold alive in refl
alive_dead {s} {now = now} {id = id} (DeadCase.ran_out e l h c) =
    alive_ended s now id e l (ground (arith, h))

seen-refusal : (s : Store) (f : Fate) → seen (s, refusal f) ≡ none
seen-refusal s none = refl
seen-refusal s (some (reason, at)) = refl

module _ (s : Store) (o : Owns s) (now later : Time) (id : SecretId) where
  take-Follows :
      (room : Bool) {r : Store × Answer Entry}
      → TakeCase s now later id r
      → Follows room (takes now later id) s r.0 (seen r)
  unfolding step_spec
  take-Follows room (TakeCase.read e l h z) =
      let a = alive_found s now id e l (lt→ltb _ _ h) in
      record {
        state = λ j.
            view-set_entry s id (decrement e) j
            ∙ ap (λ x. update id x (view s) j)
                (sym (ap after_read a ∙ unfold after_read in rw z refl));
        answer = sym (ap (Option.map one_read) a);
      }
  take-Follows room (TakeCase.last_read e l h z) =
      let a = alive_found s now id e l (lt→ltb _ _ h) in
      let s' : Store = record s { memory = clone s.memory e.sealed.ciphertext } in
      record {
        state = λ j.
            view-bury s' (Owns-Keeps (Keeps-clone s e.sealed.ciphertext) o) id e l later consumed
              (decrement e) j refl
            ∙ ap (λ v. update id none v j) (fun_ext (view-clone s o e.sealed.ciphertext))
            ∙ ap (λ x. update id x (view s) j)
                (sym (ap after_read a ∙ unfold after_read in rw z refl));
        answer =
            ap
              (λ c. some (record (one_read (secret_of s e)) {
                box = record (secret_of s e).box { ciphertext = c };
              }))
              (cells-burn s later id e (o.allocated id e l))
            ∙ sym (ap (Option.map one_read) a);
      }
  take-Follows room (TakeCase.refused {s' = s'} {f = f} d) =
      let a = alive_dead d in
      record {
        state = λ j.
            view-DeadCase id j o d
            ∙ ap (λ x. update id x (view s) j) (sym (ap after_read a ∙ unfold after_read in refl));
        answer = seen-refusal s' f ∙ sym (ap (Option.map one_read) a);
      }

  peek-Follows :
      (room : Bool) {r : Store × Answer Entry}
      → LiveCase s now later id r
      → Follows room (peeks now later id) s r.0 (seen r)
  unfolding step_spec
  peek-Follows room (LiveCase.alive e l h) =
      let a = alive_found s now id e l (lt→ltb _ _ h) in
      record {
        state = λ j. sym (update_same id j _ (view s) (view_found s id e l ∙ sym a));
        answer = sym a;
      }
  peek-Follows room (LiveCase.dead {s' = s'} {f = f} d) =
      let a = alive_dead d in
      record {
        state = λ j. view-DeadCase id j o d ∙ ap (λ x. update id x (view s) j) (sym a);
        answer = seen-refusal s' f ∙ sym a;
      }

  revoke-Follows :
      (room : Bool) {r : Store × Answer (Unit {0})}
      → RevokeCase s now later id r
      → Follows room (revokes now later id) s r.0 none
  unfolding step_spec
  revoke-Follows room (RevokeCase.removed e l h) = record {
    state = λ j. view-bury s o id e l later revoked e j refl;
    answer = refl;
  }
  revoke-Follows room (RevokeCase.refused d) = record {
    state = λ j. view-DeadCase id j o d;
    answer = refl;
  }

put-Follows :
    (s : Store) (o : Owns s) (now : Time) (f : Box) (ttl reads : ℤ)
    → let r = put (seal_into s f) now (sealed_of s f) ttl reads in
      Follows (has_room s) (puts now f ttl reads) s r.0 (stored r)
unfolding put step_spec
put-Follows s o now f ttl reads = elim (Bool-cases (leb s.max_secrets (size s.entries))) [
  | inl full ↦
      rw (full, (let r : has_room s ≡ false = ground (arith, full) in r))
        (record { state = same; answer = refl })
  | inr room ↦
      rw (room, (let r : has_room s ≡ true = ground (arith, room) in r))
        (record {
          state = λ j.
              view-set_entry (seal_into s f) f.lookup_id (new_entry now (sealed_of s f) ttl reads) j
              ∙ ap (λ x. update f.lookup_id (some x) (view (seal_into s f)) j) fresh
              ∙ ap (λ v. update f.lookup_id (some (new_secret now f ttl reads)) v j) (fun_ext same);
          answer = ap some fresh;
        })
]
  where
    same : (j : SecretId) → view (seal_into s f) j ≡ view s j
    same j =
        view_same s (seal_into s f) j refl (λ e h. let lt = o.allocated j e h in ground (arith, lt))

    fresh :
        secret_of (seal_into s f) (new_entry now (sealed_of s f) ttl reads)
        ≡ new_secret now f ttl reads
    fresh =
        ap (λ c. record (new_secret now f ttl reads) { box = record f { ciphertext = c } })
          (ground arith)

step-Follows : (s : Store) (c : Call) → IsValid s → Follows (has_room s) c s (step s c) (handed s c)
unfolding step peek
step-Follows s (puts now f ttl reads) v = put-Follows s v.owns now f ttl reads
step-Follows s (takes now later id) v =
    take-Follows s v.owns now later id (has_room s) (take-cases s now later id)
step-Follows s (peeks now later id) v =
    peek-Follows s v.owns now later id (has_room s) (live_locked-cases s now later id)
step-Follows s (revokes now later id) v =
    revoke-Follows s v.owns now later id (has_room s) (revoke-cases s now later id)
step-Follows s (purges now clock) v =
    unfold step_spec in
    record { state = view-purge s v.owns v.bounded.entries_distinct now clock; answer = refl }

run-SpecRun_from :
    (s : Store) (cs : List Call)
    → IsValid s
    → SpecRun (view s) cs (run_rooms s cs) (run_handed s cs) (view (run s cs))
unfolding run
run-SpecRun_from s [] v = finished
run-SpecRun_from s (c ∷ cs) v =
    let t = step s c in
    let f = step-Follows s c v in
    subst
      (λ x.
        SpecRun (view s) (c ∷ cs) (has_room s ∷ run_rooms t cs) (x ∷ run_handed t cs)
          (view (run t cs)))
      (sym f.answer)
      (called (has_room s) (
        subst (λ a. SpecRun a cs (run_rooms t cs) (run_handed t cs) (view (run t cs)))
          (fun_ext f.state) (run-SpecRun_from t cs (step-IsValid s c v))))

-- Every history from an empty store is one of the specification, a map from IDs to values that nobody
-- shares: after it the store holds the same secrets, each Take, Peek and Put returns the same secret, with
-- the bytes that are in memory when it returns, and a Put is accepted exactly when the store holds fewer
-- entries than its limit.
pub run-SpecRun :
    (max_secrets max_tombstones : ℤ) (memory : Memory) (cs : List Call)
    → let s = new max_secrets max_tombstones memory in
      SpecRun (λ id. none) cs (run_rooms s cs) (run_handed s cs) (view (run s cs))
run-SpecRun max_secrets max_tombstones memory cs =
    let s = new max_secrets max_tombstones memory in
    subst (λ a. SpecRun a cs (run_rooms s cs) (run_handed s cs) (view (run s cs)))
      (fun_ext (λ j. view_absent s j (unfold new lookup in refl)))
      (run-SpecRun_from s cs (new-IsValid max_secrets max_tombstones memory))

-- After every history, a purge leaves exactly the secrets that have not expired.
pub view-purge-run :
    (max_secrets max_tombstones : ℤ) (memory : Memory) (cs : List Call) (now : Time)
    (clock : SecretId → Time) (id : SecretId)
    → let s = run (new max_secrets max_tombstones memory) cs in
      view (purge s now clock) id ≡ alive now (view s id)
view-purge-run max_secrets max_tombstones memory cs now clock id =
    let v = run-IsValid max_secrets max_tombstones memory cs in
    view-purge (run (new max_secrets max_tombstones memory) cs) v.owns v.bounded.entries_distinct
      now clock id
