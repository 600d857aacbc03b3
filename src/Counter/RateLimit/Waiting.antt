-- ===== src/Counter/RateLimit/Waiting.antt =====
-- `Wait` (counter/ratelimit.go) comes to an end: it sends its bytes in chunks of a burst, one clock
-- reading each.
use Prim.Native.Nat.{min}
use mini_sb_xboard_agent.Base.{
  ℕ, zero, suc, ◌+◌, ◌-◌, ◌*◌, ◌≤◌, ◌<◌, ◌≡◌, refl, false, ◌||◌, List, [], ◌∷◌, arith, length,
  Result, ok, Bool-cases, inl, inr,
}
use mini_sb_xboard_agent.Base.Int.{ℤ, pos, ◌-ℤ◌, ltb_ℤ, leb_ℤ}
use mini_sb_xboard_agent.Counter.RateLimit.{
  RateLimiter, LimiterClosed, refill, cost, reserve, charge, chunk_of, wait_loop, wait_time, Waited,
  passed, continue,
}

-- A limiter that is on, at any level of its bucket, debts included.
pub record IsOn (r b : ℕ) (l : RateLimiter) : Type 0 where
  pub rate_is : l.rate ≡ pos r
  pub burst_is : l.burst ≡ pos b
  pub rate_positive : 0 < r
  pub burst_positive : 0 < b
  pub enabled : l.disabled ≡ false
  pub is_open : l.closed ≡ false

-- A reservation that was given, on a limiter that is still on.
record Reserved (r b : ℕ) (answer : RateLimiter × Result LimiterClosed ℕ) : Type 0 where
  wait : ℕ
  given : answer.1 ≡ ok wait
  still_on : IsOn r b answer.0

pub record Ended (r b : ℕ) (answer : RateLimiter × Waited) : Type 0 where
  pub slept : ℕ
  pub ended : answer.1 ≡ passed slept
  pub left_on : IsOn r b answer.0

module _ (r b : ℕ) where
  refill-IsOn : (now : ℕ) (l : RateLimiter) → IsOn r b l → IsOn r b (refill now l)
  unfolding refill
  refill-IsOn now l on = record {
    rate_is = ground (arith, on.rate_is);
    burst_is = ground (arith, on.burst_is);
    rate_positive = on.rate_positive;
    burst_positive = on.burst_positive;
    enabled = ground (arith, on.enabled);
    is_open = ground (arith, on.is_open);
  }

  level-IsOn : (t : ℤ) (l : RateLimiter) → IsOn r b l → IsOn r b (record l { tokens = t })
  level-IsOn t l on = record {
    rate_is = on.rate_is;
    burst_is = on.burst_is;
    rate_positive = on.rate_positive;
    burst_positive = on.burst_positive;
    enabled = on.enabled;
    is_open = on.is_open;
  }

  charge_on : (need : ℤ) (l : RateLimiter) → IsOn r b l → Reserved r b (charge need l)
  unfolding charge
  charge_on need l on = elim (Bool-cases (ltb_ℤ l.tokens need)) [
    | inl e ↦ rw e (record {
      wait = wait_time (need -ℤ l.tokens) l;
      given = refl;
      still_on = level-IsOn (l.tokens -ℤ need) l on;
    })
    | inr e ↦
        rw e (record { wait = 0; given = refl; still_on = level-IsOn (l.tokens -ℤ need) l on })
  ]

  reserve_is :
      (now n : ℕ) (l : RateLimiter)
      → 0 < n
      → IsOn r b l
      → reserve now (pos n) l ≡ charge (cost (pos n) (refill now l)) (refill now l)
  unfolding reserve
  reserve_is now n l h on = ground arith

  reserve_on :
      (now n : ℕ) (l : RateLimiter) → 0 < n → IsOn r b l → Reserved r b (reserve now (pos n) l)
  reserve_on now n l h on =
      rw (reserve_is now n l h on)
        (charge_on (cost (pos n) (refill now l)) (refill now l) (refill-IsOn now l on))

  chunk_lem : (m : ℕ) (l : RateLimiter) → IsOn r b l → chunk_of (suc m) l ≡ min (suc m) b
  unfolding chunk_of
  chunk_lem m l on = ground arith

  guard_lem :
      (l : RateLimiter) → IsOn r b l → (l.disabled || leb_ℤ l.rate (pos 0) || l.closed) ≡ false
  guard_lem l on = ground (arith, on.rate_is)

  wait_is :
      (now : ℕ) (times : List ℕ) (m slept : ℕ) (l : RateLimiter)
      → IsOn r b l
      → wait_loop (now ∷ times) (suc m) slept l
        ≡ continue
            (reserve now (pos (min (suc m) b)) l).1
            (λ t.
              wait_loop times
                (suc m - min (suc m) b)
                (slept + t)
                (reserve now (pos (min (suc m) b)) l).0)
            (reserve now (pos (min (suc m) b)) l).0
  unfolding wait_loop
  wait_is now times m slept l on = rw (guard_lem l on, chunk_lem m l on) refl

  -- On a limiter that is on, at r bytes per second and bursts of b bytes, with any debt, and with a
  -- clock reading for every burst that n bytes take: `Wait` for n bytes comes to an end without an
  -- error, and the limiter is still on.
  pub wait_ends :
      (times : List ℕ) (n slept : ℕ) (l : RateLimiter)
      → IsOn r b l
      → n ≤ length times * b
      → Ended r b (wait_loop times n slept l)
  unfolding wait_loop
  wait_ends times zero slept l on h = record { slept = slept; ended = refl; left_on = on }
  wait_ends [] (suc m) slept l on h = absurd (omega (arith, h))
  wait_ends (now ∷ times) (suc m) slept l on h =
      let here = reserve_on now (min (suc m) b) l (ground (arith, on.burst_positive)) on in
      let rest =
        wait_ends times (suc m - min (suc m) b) (slept + here.wait)
          (reserve now (pos (min (suc m) b)) l).0 here.still_on (omega (arith, h)) in
      rw (wait_is now times m slept l on, here.given) rest
