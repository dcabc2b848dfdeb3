-- ===== src/Api/RateLimit.antt =====
-- The token buckets of internal/api/ratelimit.go. A number of tokens is measured by the nanoseconds
-- that refill it: one token is `cost` of them, `burst` is that of a full bucket, and `spent` is what
-- a bucket lacks to be full, so that tokens = burst - spent and a refill never passes the burst. The
-- arithmetic is exact, where the code rounds to float64.
pub mod Cases
pub mod Bound
use secretstash.Base.{
  ℕ, ◌+◌, ◌-◌, ◌*◌, [], ◌∷◌, Option, none, some, Bool, true, false, Bytes, Assoc, lookup, insert,
  bytes_dec, ltb, leb, if◌then◌else◌,
}
use secretstash.Store.{Time}

pub record Bucket : Type 0 where
  pub spent : ℕ
  pub last : Time

-- No collection yet is the zero time of the code, which is more than a minute ago.
pub record RateLimiter : Type 0 where
  pub buckets : Assoc Bytes Bucket
  pub cost : ℕ
  pub burst : ℕ
  pub last_gc : Option Time

-- newRateLimiter(rate, tokens), where one token comes in `cost` nanoseconds.
unfoldable pub new_rate_limiter : ℕ → ℕ → RateLimiter
new_rate_limiter cost tokens = record {
  buckets = [];
  cost = cost;
  burst = tokens * cost;
  last_gc = none;
}

-- time.Minute
abbrev pub minute : Time
minute = 60000000000

-- The loop of gcLocked: it drops the buckets that are full by now.
unfoldable pub sweep : Time → Assoc Bytes Bucket → Assoc Bytes Bucket
sweep now [] = []
sweep now ((key, b) ∷ m) =
    let rest = sweep now m in if leb b.spent (now - b.last) then rest else (key, b) ∷ rest

unfoldable pub gc_due : Time → Option Time → Bool
gc_due now none = true
gc_due now (some last) = if ltb (now - last) minute then false else true

unfoldable pub gc_locked : RateLimiter → Time → RateLimiter
unfolding sweep gc_due
gc_locked l now =
    if gc_due now l.last_gc
    then record l { buckets = sweep now l.buckets; last_gc = some now }
    else l

abbrev pub set_bucket : Bytes → Bucket → RateLimiter → RateLimiter
set_bucket key b l = record l { buckets = insert bytes_dec key b l.buckets }

-- The bucket of refillLocked, from what stands in the map.
unfoldable pub refilled : Time → Option Bucket → Bucket
refilled now none = record { spent = 0; last = now }
refilled now (some b) = record { spent = b.spent - (now - b.last); last = now }

unfoldable pub refill_locked : RateLimiter → Time → Bytes → RateLimiter × Bucket
unfolding gc_locked refilled
refill_locked l now key =
    let l' = gc_locked l now in
    let b = refilled now (lookup bytes_dec key l'.buckets) in (set_bucket key b l', b)

-- b.tokens--
unfoldable pub charge : RateLimiter → Bytes → Bucket → RateLimiter
charge l key b = set_bucket key (record b { spent = b.spent + l.cost }) l

unfoldable pub allow : RateLimiter → Time → Bytes → RateLimiter × Bool
unfolding refill_locked charge
allow l now key =
    let (l', b) = refill_locked l now key in
    if ltb l'.burst (b.spent + l'.cost) then (l', false) else (charge l' key b, true)

unfoldable pub take : RateLimiter → Time → Bytes → RateLimiter
unfolding refill_locked charge
take l now key = let (l', b) = refill_locked l now key in charge l' key b

unfoldable pub peek_ok : RateLimiter → Time → Bytes → RateLimiter × Bool
unfolding refill_locked
peek_ok l now key = let (l', b) = refill_locked l now key in (l', leb b.spent l'.burst)
