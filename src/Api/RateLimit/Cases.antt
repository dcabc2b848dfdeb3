-- ===== src/Api/RateLimit/Cases.antt =====
-- What allow does to the buckets, on each of its branches.
use secretstash.Base.{
  ℕ, ◌+◌, ◌-◌, ◌≤◌, ◌<◌, ◌≡◌, ◌≢◌, refl, sym, ap, ap₂, ◌∙◌, [], ◌∷◌, Option, none, some, Bool, true,
  false, Bool-cases, inl, inr, if_pos, if_neg, Bytes, Assoc, Distinct, lookup, lookup-insert,
  insert-Distinct, bytes_dec, ltb, leb, leb→le, if◌then◌else◌, arith,
}
use secretstash.Store.{Time}
use secretstash.Api.RateLimit.{
  Bucket, RateLimiter, sweep, gc_due, gc_locked, set_bucket, refilled, refill_locked, charge, allow,
  peek_ok,
}

-- What a bucket lacks at a time to be full.
abbrev pub lack : Time → Option Bucket → ℕ
lack now none = 0
lack now (some b) = b.spent - (now - b.last)

abbrev pub lack_of : Bytes → Time → RateLimiter → ℕ
lack_of key now l = lack now (lookup bytes_dec key l.buckets)

lookup-sweep_absent :
    (now : Time) (key : Bytes) (m : Assoc Bytes Bucket)
    → lookup bytes_dec key m ≡ none
    → lookup bytes_dec key (sweep now m) ≡ none
unfolding lookup sweep
lookup-sweep_absent now key [] h = refl
lookup-sweep_absent now key ((j, b) ∷ m) h = ground (arith, lookup-sweep_absent now key m)

-- A sweep drops only buckets that lack nothing.
lack-sweep :
    (now : Time) (key : Bytes) (m : Assoc Bytes Bucket)
    → Distinct bytes_dec m
    → lack now (lookup bytes_dec key (sweep now m)) ≡ lack now (lookup bytes_dec key m)
unfolding lookup sweep
lack-sweep now key [] d = refl
lack-sweep now key ((j, b) ∷ m) d = elim (Bool-cases (leb b.spent (now - b.last))) [
  | inr h ↦ ground (h, arith, lack-sweep now key m d.1)
  | inl h ↦ elim (bytes_dec j key) [
    | no p ↦ ground (h, arith, lack-sweep now key m d.1)
    | yes p ↦
        rw (h, if_pos (bytes_dec j key) p (some b) (lookup bytes_dec key m), sym p)
          (ap (lack now) (lookup-sweep_absent now j m d.0)
            ∙ omega (arith, leb→le b.spent (now - b.last) h))
  ]
]

sweep-Distinct :
    (now : Time) (m : Assoc Bytes Bucket) → Distinct bytes_dec m → Distinct bytes_dec (sweep now m)
unfolding sweep
sweep-Distinct now [] d = tt
sweep-Distinct now ((j, b) ∷ m) d =
    ground (arith, sweep-Distinct now m, lookup-sweep_absent now j m)

-- The limiter after a call on one key: every other key has what it had.
pub record Kept (l : RateLimiter) (now : Time) (key : Bytes) (l' : RateLimiter) : Type 0 where
  pub distinct : Distinct bytes_dec l'.buckets
  pub cost : l'.cost ≡ l.cost
  pub burst : l'.burst ≡ l.burst
  pub others : (j : Bytes) → key ≢ j → lack_of j now l' ≡ lack_of j now l

pub data AllowCase (l : RateLimiter) (now : Time) (key : Bytes) : RateLimiter × Bool → Type 0 where
  passed :
      {l' : RateLimiter}
      → Kept l now key l'
      → lack_of key now l' ≡ lack_of key now l + l.cost
      → lack_of key now l + l.cost ≤ l.burst
      → AllowCase l now key (l', true)
  blocked :
      {l' : RateLimiter}
      → Kept l now key l'
      → lack_of key now l' ≡ lack_of key now l
      → l.burst < lack_of key now l + l.cost
      → AllowCase l now key (l', false)

gc_locked-lack :
    (l : RateLimiter) (now : Time) (key : Bytes)
    → Distinct bytes_dec l.buckets
    → (lack_of key now (gc_locked l now) ≡ lack_of key now l)
      × Distinct bytes_dec (gc_locked l now).buckets
      × ((gc_locked l now).cost ≡ l.cost)
      × ((gc_locked l now).burst ≡ l.burst)
unfolding gc_locked
gc_locked-lack l now key d = elim (Bool-cases (gc_due now l.last_gc)) [
  | inl h ↦ rw h (lack-sweep now key l.buckets d, sweep-Distinct now l.buckets d, refl, refl)
  | inr h ↦ rw h (refl, d, refl, refl)
]

set_bucket-Kept :
    (l g : RateLimiter) (now : Time) (key : Bytes) (b : Bucket)
    → ((j : Bytes) → lack_of j now g ≡ lack_of j now l)
    → Distinct bytes_dec g.buckets
    → g.cost ≡ l.cost
    → g.burst ≡ l.burst
    → Kept l now key (set_bucket key b g)
set_bucket-Kept l g now key b same d c u = record {
  distinct = insert-Distinct bytes_dec key b g.buckets d;
  cost = c;
  burst = u;
  others = λ j n.
      ap (lack now) (lookup-insert bytes_dec key j b g.buckets ∙ if_neg (bytes_dec key j) n _ _)
      ∙ same j;
}

lack_of-set_bucket :
    (g : RateLimiter) (now : Time) (key : Bytes) (b : Bucket)
    → lack_of key now (set_bucket key b g) ≡ lack now (some b)
lack_of-set_bucket g now key b =
    ap (lack now)
      (lookup-insert bytes_dec key key b g.buckets ∙ if_pos (bytes_dec key key) refl _ _)

spent-refilled : (now : Time) (o : Option Bucket) → (refilled now o).spent ≡ lack now o
unfolding refilled
spent-refilled now none = refl
spent-refilled now (some b) = refl

last-refilled : (now : Time) (o : Option Bucket) → (refilled now o).last ≡ now
unfolding refilled
last-refilled now none = refl
last-refilled now (some b) = refl

-- The decision of allow on a limiter that lacks what l does, and on a bucket refilled by now.
decision-AllowCase :
    (l g : RateLimiter) (now : Time) (key : Bytes) (b : Bucket)
    → ((j : Bytes) → lack_of j now g ≡ lack_of j now l)
    → Distinct bytes_dec g.buckets
    → g.cost ≡ l.cost
    → g.burst ≡ l.burst
    → b.spent ≡ lack_of key now g
    → b.last ≡ now
    → AllowCase l now key (
        if ltb g.burst (b.spent + g.cost)
        then (set_bucket key b g, false)
        else (charge (set_bucket key b g) key b, true))
unfolding charge
decision-AllowCase l g now key b same d c u sp la =
    elim (Bool-cases (ltb g.burst (b.spent + g.cost))) [
      | inl h ↦ rw h (
          AllowCase.blocked kept
            (lack_of-set_bucket g now key b ∙ omega (arith, same key, ap (λ t. now - t) la, sp, la))
            (ground (arith, same key, sp, la, c, u, h)))
      | inr h ↦ rw h (
          AllowCase.passed (set_bucket-Kept_again kept)
            (lack_of-set_bucket (set_bucket key b g) now key _ ∙ omega (arith, same key, sp, la, c))
            (ground (arith, same key, sp, la, c, u, h)))
    ]
  where
    kept : Kept l now key (set_bucket key b g)
    kept = set_bucket-Kept l g now key b same d c u

    paid : Bucket
    paid = record b { spent = b.spent + g.cost }

    set_bucket-Kept_again :
        Kept l now key (set_bucket key b g)
        → Kept l now key (set_bucket key paid (set_bucket key b g))
    set_bucket-Kept_again k = record {
      distinct = insert-Distinct bytes_dec key paid (set_bucket key b g).buckets k.distinct;
      cost = k.cost;
      burst = k.burst;
      others = λ j n.
          ap (lack now) (
            lookup-insert bytes_dec key j paid (set_bucket key b g).buckets
            ∙ if_neg (bytes_dec key j) n _ _)
          ∙ k.others j n;
    }

pub allow-cases :
    (l : RateLimiter) (now : Time) (key : Bytes)
    → Distinct bytes_dec l.buckets
    → AllowCase l now key (allow l now key)
unfolding allow refill_locked
allow-cases l now key d =
    let (same, distinct, cost, burst) = gc_locked-lack l now key d in
    decision-AllowCase l (gc_locked l now) now key
      (refilled now (lookup bytes_dec key (gc_locked l now).buckets))
      (λ j. (gc_locked-lack l now j d).0) distinct cost burst
      (spent-refilled now (lookup bytes_dec key (gc_locked l now).buckets))
      (last-refilled now (lookup bytes_dec key (gc_locked l now).buckets))

-- peekOK lets pass exactly those keys that lack no more than the burst, and takes nothing.
pub peek_ok-lack :
    (l : RateLimiter) (now : Time) (key : Bytes)
    → Distinct bytes_dec l.buckets
    → ((peek_ok l now key).1 ≡ leb (lack_of key now l) l.burst)
      × Kept l now key (peek_ok l now key).0
      × (lack_of key now (peek_ok l now key).0 ≡ lack_of key now l)
unfolding peek_ok refill_locked
peek_ok-lack l now key d =
    let (same, distinct, cost, burst) = gc_locked-lack l now key d in
    let g = gc_locked l now in
    let b = refilled now (lookup bytes_dec key g.buckets) in
    let spent = spent-refilled now (lookup bytes_dec key g.buckets) in
    let last = last-refilled now (lookup bytes_dec key g.buckets) in
    (
      ap₂ leb (spent ∙ same) burst,
      set_bucket-Kept l g now key b (λ j. (gc_locked-lack l now j d).0) distinct cost burst,
      lack_of-set_bucket g now key b ∙ omega (arith, same, spent, last),
    )
