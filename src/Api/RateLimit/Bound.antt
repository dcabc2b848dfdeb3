-- ===== src/Api/RateLimit/Bound.antt =====
-- How many requests of one address allow lets pass in a span of time.
use secretstash.Base.{
  ℕ, ◌+◌, ◌-◌, ◌*◌, ◌≤◌, ◌≡◌, ap, List, [], ◌∷◌, Option, none, some, Bool, true, false, Bytes,
  Distinct, lookup, bytes_dec, arith,
}
use secretstash.Store.{Time}
use secretstash.Api.RateLimit.{Bucket, RateLimiter, allow, new_rate_limiter}
use secretstash.Api.RateLimit.Cases.{lack, lack_of, AllowCase, allow-cases}

-- Calls of allow in turn, each with its time and key: how many of them pass for one key.
abbrev counted {κ} : {P : Type κ} → Dec P → Bool → ℕ
counted (no p) b = 0
counted (yes p) false = 0
counted (yes p) true = 1

unfoldable pub passes : Bytes → RateLimiter → List (Time × Bytes) → ℕ
passes key l [] = 0
passes key l ((now, k) ∷ cs) =
    counted (bytes_dec k key) (allow l now k).1 + passes key (allow l now k).0 cs

abbrev pub InOrder : Time → List (Time × Bytes) → Type 0
InOrder start [] = Unit
InOrder start ((now, k) ∷ cs) = (start ≤ now) × InOrder now cs

abbrev pub last_time : Time → List (Time × Bytes) → Time
last_time start [] = start
last_time start ((now, k) ∷ cs) = last_time now cs

le-last_time :
    (start : Time) (cs : List (Time × Bytes)) → InOrder start cs → start ≤ last_time start cs
le-last_time start [] h = omega arith
le-last_time start ((now, k) ∷ cs) h = omega (arith, h.0, le-last_time now cs h.1)

-- Waiting refills a bucket, by one nanosecond's worth in each.
lack-wait :
    (now later : Time) (o : Option Bucket)
    → now ≤ later
    → (lack later o ≤ lack now o) × (lack now o ≤ lack later o + (later - now))
lack-wait now later none h = (omega arith, omega arith)
lack-wait now later (some b) h = (omega arith, omega arith)

-- One call: what it takes from the bucket of this key.
record Spends (l : RateLimiter) (now : Time) (key : Bytes) (n : ℕ) (l' : RateLimiter) : Type 0 where
  distinct : Distinct bytes_dec l'.buckets
  cost : l'.cost ≡ l.cost
  burst : l'.burst ≡ l.burst
  lack : lack_of key now l' ≡ lack_of key now l + n * l.cost
  within : lack_of key now l ≤ l.burst → lack_of key now l' ≤ l.burst

Spends-AllowCase :
    (key k : Bytes) {l : RateLimiter} {now : Time} {r : RateLimiter × Bool}
    → AllowCase l now k r
    → Spends l now key (counted (bytes_dec k key) r.1) r.0
Spends-AllowCase key k {l} {now} (AllowCase.passed {l' = l'} kept paid room) =
    elim (bytes_dec k key) as (λ c. Spends l now key (counted c true) l') [
      | no p ↦ record {
        distinct = kept.distinct;
        cost = kept.cost;
        burst = kept.burst;
        lack = omega (arith, kept.others key p);
        within = λ h. omega (arith, kept.others key p);
      }
      | yes p ↦ record {
        distinct = kept.distinct;
        cost = kept.cost;
        burst = kept.burst;
        lack = omega (arith, paid, ap (λ i. lack_of i now l) p, ap (λ i. lack_of i now l') p);
        within = λ h.
            omega (arith, paid, room, ap (λ i. lack_of i now l) p, ap (λ i. lack_of i now l') p);
      }
    ]
Spends-AllowCase key k {l} {now} (AllowCase.blocked {l' = l'} kept same full) =
    elim (bytes_dec k key) as (λ c. Spends l now key (counted c false) l') [
      | no p ↦ record {
        distinct = kept.distinct;
        cost = kept.cost;
        burst = kept.burst;
        lack = omega (arith, kept.others key p);
        within = λ h. omega (arith, kept.others key p);
      }
      | yes p ↦ record {
        distinct = kept.distinct;
        cost = kept.cost;
        burst = kept.burst;
        lack = omega (arith, same, ap (λ i. lack_of i now l) p, ap (λ i. lack_of i now l') p);
        within =
            λ h. omega (arith, same, ap (λ i. lack_of i now l) p, ap (λ i. lack_of i now l') p);
      }
    ]

add_mul : (n m c : ℕ) → (n + m) * c ≡ n * c + m * c
add_mul n m c = omega arith

passes_from :
    (key : Bytes) (l : RateLimiter) (start : Time) (cs : List (Time × Bytes))
    → Distinct bytes_dec l.buckets
    → InOrder start cs
    → lack_of key start l ≤ l.burst
    → passes key l cs * l.cost + lack_of key start l ≤ l.burst + (last_time start cs - start)
unfolding passes
passes_from key l start [] d o h = omega arith
passes_from key l start ((now, k) ∷ cs) d o h =
    let spends = Spends-AllowCase key k (allow-cases l now k d) in
    let wait = lack-wait start now (lookup bytes_dec key l.buckets) o.0 in
    let l' : RateLimiter = (allow l now k).0 in
    let ih =
      passes_from key l' now cs spends.distinct o.1
        (omega (arith, spends.within (omega (arith, wait.0)), spends.burst)) in
    omega (
      arith,
      ih,
      ap (λ c. passes key l' cs * c) spends.cost,
      spends.lack,
      spends.burst,
      wait.1,
      add_mul (counted (bytes_dec k key) (allow l now k).1) (passes key l' cs) l.cost,
      le-last_time now cs o.1,
      o.0,
      h,
    )

-- From a new limiter, and in calls for any keys in the order of time, the requests of one key that
-- pass cost no more than a full bucket and the time that goes by: in t nanoseconds, at most
-- tokens + t / cost of them.
pub passes-le :
    (key : Bytes) (cost tokens : ℕ) (start : Time) (cs : List (Time × Bytes))
    → InOrder start cs
    → passes key (new_rate_limiter cost tokens) cs * cost
      ≤ tokens * cost + (last_time start cs - start)
unfolding new_rate_limiter lookup
passes-le key cost tokens start cs o =
    omega (arith, passes_from key (new_rate_limiter cost tokens) start cs tt o (omega arith))
