-- ===== src/Gateway/Bound.antt =====
-- How many messages the token bucket of gateway/src/gateway/rate_limit.py lets through.
use sonalyze_backend.Prelude.{
  ℕ, zero, ◌+◌, ◌-◌, ◌*◌, ◌≤◌, ◌≡◌, refl, ap, sym, subst, if◌then◌else◌, ◌∙◌, Bool, true, false,
  List, [], ◌∷◌, suc, arith,
}
use sonalyze_backend.Gateway.RateLimit.{TokenBucket, refill, allow, run}

-- The times do not go back, and begin at `t` or later: the clock is monotonic.
abbrev pub Ascending : ℕ → List ℕ → Type 0
Ascending t [] = Unit
Ascending t (u ∷ us) = (t ≤ u) × Ascending u us

times : (a b r : ℕ) → (a + b) * r ≡ a * r + b * r
times zero b r = omega arith
times (suc a) b r = omega (arith, times a b r)

gaps : (l n e r : ℕ) → l ≤ n → n ≤ e → (e - l) * r ≡ (n - l) * r + (e - n) * r
gaps l n e r a b =
    let split : e - l ≡ (n - l) + (e - n) = omega arith in
    ap (λ (x : ℕ). x * r) split ∙ times (n - l) (e - n) r

allow_lem :
    (c now : ℕ) (b : TokenBucket)
    → let (granted, b') = allow now c b in
      (elim granted [ true ↦ c + b'.tokens | false ↦ b'.tokens ]
        ≤ b.tokens + (now - b.last) * b.rate)
      × (b'.last ≡ now)
      × (b'.rate ≡ b.rate)
unfolding allow refill
allow_lem c now b = ground arith

add_up :
    (granted : Bool) (n c t2 t1 t0 x y z : ℕ)
    → elim granted [ true ↦ c + t1 | false ↦ t1 ] ≤ t0 + x
    → n * c + t2 ≤ t1 + y
    → z ≡ x + y
    → (if granted then suc n else n) * c + t2 ≤ t0 + z
add_up true n c t2 t1 t0 x y z a b e = omega (arith, a, b, e)
add_up false n c t2 t1 t0 x y z a b e = omega (arith, a, b, e)

-- Whatever the times, as long as the clock is monotonic: the tokens that are granted are at most those
-- that the bucket held at first and those that its rate adds until the last of the calls.
pub run-Bounded :
    (c : ℕ) (times : List ℕ) (b : TokenBucket)
    → Ascending b.last times
    → let (n, b') = run c times b in
      (n * c + b'.tokens ≤ b.tokens + (b'.last - b.last) * b.rate)
      × (b.last ≤ b'.last)
      × (b'.rate ≡ b.rate)
unfolding run
run-Bounded c [] b up = (omega arith, omega arith, refl)
run-Bounded c (now ∷ us) b up =
    let b1 : TokenBucket = (allow now c b).1 in
    let (paid, at, same) = allow_lem c now b in
    let (spent, later, kept) =
      run-Bounded c us b1 (subst (λ (t : ℕ). Ascending t us) (sym at) up.1) in
    let b2 : TokenBucket = (run c us b1).1 in
    let from_now : now ≤ b2.last = subst (λ (t : ℕ). t ≤ b2.last) at later in
    let flow : (b2.last - b1.last) * b1.rate ≡ (b2.last - now) * b.rate = rw (at, same) in
    (
      add_up (allow now c b).0 (run c us b1).0 c b2.tokens b1.tokens b.tokens _ _ _ paid
          (subst (λ (y : ℕ). (run c us b1).0 * c + b2.tokens ≤ b1.tokens + y) flow spent)
          (gaps b.last now b2.last b.rate up.0 from_now),
      omega (arith, up.0, from_now),
      kept ∙ same,
    )
