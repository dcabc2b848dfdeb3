-- ===== src/Tests/Secrets.antt =====
-- Runs of the store and the tokens.
use secretstash.Base.{
  ◌<◌, ◌≤◌, ◌≡◌, ◌≢◌, refl, List, [], ◌∷◌, map, none, some, Bytes, length, replicate, arith, lookup,
  insert, bytes_dec, ℕ_discrete,
}
use secretstash.Base.Int.{pos}
use secretstash.Base.Result.{Result, ok, err}
use secretstash.Shamir.Codec.{IsBytes}
use secretstash.Crypto.{
  Box, Error, new_token, parse_token, encode_token, lookup_id, seal, open_box, token_bytes,
}
use secretstash.Crypto.Tokens.{parse_token-encode_token, parse_token-new_token}
use secretstash.Crypto.Sealing.{open_box-seal}
use secretstash.Memory.{Memory}
use secretstash.Store.{
  found, gone, consumed, revoked, SecretId, Entry, Sealed, Store, new, lookup_entry, put, take,
  peek, revoke, purge, new_entry,
}
use secretstash.Store.Cases.{decrement}
use secretstash.Store.Calls.{Call, puts, takes, peeks, revokes, purges, step, run}
use secretstash.Store.Valid.{IsValid, run-IsValid}
use secretstash.Store.Reads.{allowance, reads_of, reads_of-le-allowance}
use secretstash.Store.Countdown.{told, countdown, take_all, take_all-countdown}
use secretstash.Store.Frame.{HasRoom, Frame, Frame-others}
use secretstash.Store.Delivery.{Delivers, take-Delivers, cells-revoke-take}
use secretstash.Store.Leaving.Zeroed.{run_zeroed}
use secretstash.Store.Testimony.Lasting.{take-run-take_last}
use secretstash.Store.Spec.{SpecRun, alive}
use secretstash.Store.Spec.View.{view}
use secretstash.Store.Spec.Refines.{run_rooms, run_handed, run-SpecRun, view-purge-run}
use secretstash.Store.Evidence.{take-revoke}
use secretstash.Api.{
  Config, Api, WrapRequest, Response, wrapped, unwrapped, ParseDuration, read_wrap,
}
use secretstash.Api as api
use secretstash.Tests.Samples.{codec, ciphers, rand, rand-Fills, replicate-IsBytes}

abbrev pub raw : Bytes
raw = replicate 32 7

abbrev token_of : Result Error Bytes → Bytes
token_of (ok token) = token
token_of (err e) = []

abbrev pub token : Bytes
token = token_of (encode_token codec raw)

pub raw-IsBytes : IsBytes raw
raw-IsBytes = replicate-IsBytes 32 7 (omega arith)

encoded : encode_token codec raw ≡ ok token
unfolding encode_token
encoded = refl

parse_token-encode_token_example : parse_token codec token ≡ ok raw
parse_token-encode_token_example = parse_token-encode_token codec raw token raw-IsBytes encoded

drawn : new_token codec rand 0 ≡ ok (token, raw)
unfolding new_token encode_token
drawn = refl

parse_token-new_token_example : (length raw ≡ token_bytes) × (parse_token codec token ≡ ok raw)
parse_token-new_token_example = parse_token-new_token codec rand 0 token raw rand-Fills drawn

abbrev box_of_result : Result Error Box → Box
box_of_result (ok box) = box
box_of_result (err e) = record { lookup_id = []; ciphertext = []; salt = []; nonce = [] }

abbrev box : Box
box = box_of_result (seal codec ciphers rand 1 raw (1 ∷ 2 ∷ []))

sealed : seal codec ciphers rand 1 raw (1 ∷ 2 ∷ []) ≡ ok box
unfolding seal
sealed = refl

open_box-seal_example :
    (box.lookup_id ≡ lookup_id codec ciphers raw)
    × (open_box codec ciphers raw box ≡ ok (1 ∷ 2 ∷ []))
open_box-seal_example = open_box-seal codec ciphers rand 1 raw (1 ∷ 2 ∷ []) box rand-Fills sealed

abbrev pub memory : Memory
memory = record { cells = λ a. []; next = 0 }

abbrev first : Box
first = record { lookup_id = 1 ∷ []; ciphertext = 5 ∷ 6 ∷ []; salt = []; nonce = [] }

-- A store with one secret that can be read twice before the time 100.
abbrev one : Store
one = step (new (pos 2) (pos 8) memory) (puts 0 first (pos 100) (pos 2))

abbrev first_sealed : Sealed
first_sealed = record { lookup_id = 1 ∷ []; ciphertext = 0; salt = []; nonce = [] }

abbrev entry : Entry
entry = new_entry 0 first_sealed (pos 100) (pos 2)

entry_found : lookup_entry (1 ∷ []) one ≡ some entry
unfolding step put new insert lookup bytes_dec ℕ_discrete
entry_found = refl

abbrev calls : List Call
calls =
    puts 0 first (pos 100) (pos 2)
    ∷ takes 1 1 (1 ∷ [])
    ∷ peeks 2 2 (1 ∷ [])
    ∷ revokes 3 3 (1 ∷ [])
    ∷ purges 200 (λ id. 200)
    ∷ []

run-IsValid_example : IsValid (run (new (pos 2) (pos 8) memory) calls)
run-IsValid_example = run-IsValid (pos 2) (pos 8) memory calls

abbrev reading : List Call
reading = takes 1 1 (1 ∷ []) ∷ takes 2 2 (1 ∷ []) ∷ takes 3 3 (1 ∷ []) ∷ []

reads_of-le-allowance_example : reads_of (1 ∷ []) one reading ≤ allowance (1 ∷ []) one
reads_of-le-allowance_example = reads_of-le-allowance (1 ∷ []) one reading (tt, (tt, (tt, tt)))

take_all-countdown_example :
    (map told (take_all (1 ∷ []) one ((1, 1) ∷ (2, 2) ∷ [])).1 ≡ countdown 1)
    × (lookup_entry (1 ∷ []) (take_all (1 ∷ []) one ((1, 1) ∷ (2, 2) ∷ [])).0 ≡ none)
take_all-countdown_example =
    take_all-countdown 1 (1 ∷ []) one entry ((1, 1) ∷ (2, 2) ∷ []) entry_found refl refl
      (omega arith, (omega arith, tt))

-- Two reads, and then a purge.
abbrev used_up : List Call
used_up = takes 1 1 (1 ∷ []) ∷ takes 2 2 (1 ∷ []) ∷ purges 200 (λ id. 200) ∷ []

used_up_gone : lookup_entry (1 ∷ []) (run one used_up) ≡ none
unfolding run step put new insert lookup bytes_dec ℕ_discrete purge secretstash.Store.purge_tombs
    secretstash.Store.purge_entries take secretstash.Store.take_answer secretstash.Store.live_locked
    secretstash.Store.take_live secretstash.Store.bury secretstash.Base.delete
    secretstash.Store.tombstone
used_up_gone = refl

one_reached : run (new (pos 2) (pos 8) memory) (puts 0 first (pos 100) (pos 2) ∷ []) ≡ one
unfolding run
one_reached = refl

run_zeroed_example : (run one used_up).memory.cells 0 ≡ replicate (length (one.memory.cells 0)) 0
run_zeroed_example =
    run_zeroed (pos 2) (pos 8) memory (puts 0 first (pos 100) (pos 2) ∷ []) used_up (1 ∷ []) entry
      one one_reached entry_found (tt, (tt, (tt, tt))) used_up_gone

ids_ne : ◌≢◌ {A = SecretId} (2 ∷ []) (1 ∷ [])
ids_ne p = cc

Frame-others_example :
    Frame (1 ∷ []) one (take one 1 1 (2 ∷ [])).0
    × Frame (1 ∷ []) one (peek one 1 1 (2 ∷ [])).0
    × Frame (1 ∷ []) one (revoke one 1 1 (2 ∷ [])).0
Frame-others_example = Frame-others (2 ∷ []) (1 ∷ []) ids_ne one 1 1

allocated : 0 < one.memory.next
unfolding step put new
allocated = omega arith

take-Delivers_example : Delivers one entry (take one 1 1 (1 ∷ []))
take-Delivers_example = take-Delivers one 1 1 (1 ∷ []) entry entry_found (omega arith) allocated

-- The same with one read.
abbrev single : Store
single = step (new (pos 2) (pos 8) memory) (puts 0 first (pos 100) (pos 1))

abbrev last_entry : Entry
last_entry = new_entry 0 first_sealed (pos 100) (pos 1)

last_found : lookup_entry (1 ∷ []) single ≡ some last_entry
unfolding step put new insert lookup bytes_dec ℕ_discrete
last_found = refl

cells-revoke-take_example :
    ((take one 1 1 (1 ∷ [])).1 ≡ found (decrement entry))
    × ((revoke (take one 1 1 (1 ∷ [])).0 2 2 (1 ∷ [])).0.memory.cells 0
        ≡ replicate (length (one.memory.cells 0)) 0)
cells-revoke-take_example =
    cells-revoke-take one 1 1 2 2 (1 ∷ []) entry entry_found (omega arith) (omega arith) refl

single_room : HasRoom single
unfolding step put new api.new
single_room = omega arith

one_room : HasRoom one
unfolding step put new
one_room = omega arith

take-revoke_example :
    take (revoke one 1 1 (1 ∷ [])).0 50 50 (1 ∷ []) ≡ ((revoke one 1 1 (1 ∷ [])).0, gone revoked 1)
take-revoke_example =
    take-revoke one 1 1 50 50 (1 ∷ []) entry one_room entry_found (omega arith) (omega arith)

run-SpecRun_example :
    let s = new (pos 2) (pos 8) memory in
    SpecRun (λ id. none) calls (run_rooms s calls) (run_handed s calls) (view (run s calls))
run-SpecRun_example = run-SpecRun (pos 2) (pos 8) memory calls

view-purge-run_example :
    let s = run (new (pos 2) (pos 8) memory) (puts 0 first (pos 100) (pos 2) ∷ []) in
    view (purge s 200 (λ id. 201)) (1 ∷ []) ≡ alive 200 (view s (1 ∷ []))
view-purge-run_example =
    view-purge-run (pos 2) (pos 8) memory (puts 0 first (pos 100) (pos 2) ∷ []) 200 (λ id. 201)
      (1 ∷ [])

abbrev before : List Call
before = puts 0 first (pos 100) (pos 1) ∷ []

-- Other calls between the last read and the next.
abbrev between : List Call
between =
    takes 2 2 (1 ∷ []) ∷ peeks 3 3 (2 ∷ []) ∷ revokes 4 4 (1 ∷ []) ∷ purges 5000 (λ id. 5000) ∷ []

before_room : HasRoom (run (new (pos 2) (pos 8) memory) before)
unfolding run
before_room = single_room

before_found : lookup_entry (1 ∷ []) (run (new (pos 2) (pos 8) memory) before) ≡ some last_entry
unfolding run
before_found = last_found

take-run-take_last_example :
    (take
      (run (take (run (new (pos 2) (pos 8) memory) before) 1 1 (1 ∷ [])).0 between)
      6000
      6000
      (1 ∷ [])).1
    ≡ gone consumed 1
take-run-take_last_example =
    take-run-take_last (pos 2) (pos 8) memory before between 1 1 6000 6000 (1 ∷ []) last_entry
      before_room before_found (omega arith) refl
      (omega arith, (omega arith, (omega arith, (omega arith, tt)))) (omega arith)
