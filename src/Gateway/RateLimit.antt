-- ===== src/Gateway/RateLimit.antt =====
-- gateway/src/gateway/rate_limit.py. A token is `unit` parts and the clock counts ticks, so that a
-- rate is a number of parts per tick and the amounts, which are floats in the source, are exact.
use sonalyze_backend.Prelude.{
  ℕ, ◌+◌, ◌-◌, ◌*◌, Bool, true, false, List, [], ◌∷◌, suc, leb, if◌then◌else◌,
}

pub record TokenBucket : Type 0 where
  pub rate : ℕ
  pub capacity : ℕ
  pub tokens : ℕ
  pub last : ℕ

abbrev pub at_least : ℕ → ℕ → ℕ
at_least n m = if leb n m then m else n

abbrev pub at_most : ℕ → ℕ → ℕ
at_most n m = if leb n m then n else m

-- `__init__`, with the capacity in tokens; `now` is `time.monotonic()`
unfoldable pub new_bucket : ℕ → ℕ → ℕ → ℕ → TokenBucket
new_bucket unit rate_per_tick capacity now = record {
  rate = rate_per_tick;
  capacity = at_least 1 capacity * unit;
  tokens = at_least 1 capacity * unit;
  last = now;
}

-- the bucket after the refill of `allow`
unfoldable pub refill : ℕ → TokenBucket → TokenBucket
refill now b = record b {
  last = now;
  tokens = at_most b.capacity (b.tokens + (now - b.last) * b.rate);
}

unfoldable pub allow : ℕ → ℕ → TokenBucket → Bool × TokenBucket
unfolding refill
allow now tokens b =
    let full = refill now b in
    if leb tokens full.tokens
    then (true, record full { tokens = full.tokens - tokens })
    else (false, full)

-- How many of the calls at these times are allowed, and the bucket after them.
unfoldable pub run : ℕ → List ℕ → TokenBucket → ℕ × TokenBucket
unfolding allow
run tokens [] b = (0, b)
run tokens (now ∷ times) b =
    let (granted, b') = allow now tokens b in
    let (n, last) = run tokens times b' in (if granted then suc n else n, last)
