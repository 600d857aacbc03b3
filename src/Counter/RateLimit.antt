-- ===== src/Counter/RateLimit.antt =====
-- The token bucket `RateLimiter` (counter/ratelimit.go). Tokens are counted in billionths of a byte
-- and times in nanoseconds: a nanosecond at `rate` bytes per second is `rate` billionths. The source
-- computes in float64 and rounds, which is left out. A time of 0 is Go's zero time.
pub mod Waiting
use mini_sb_xboard_agent.Base.{
  ℕ, zero, suc, ◌+◌, ◌-◌, ◌*◌, ◌/◌, Bool, true, false, not, ◌||◌, ◌&&◌, Option, none, some, List,
  [], ◌∷◌, ltb, leb, nat_beq, if◌then◌else◌, Result, ok, err,
}
use mini_sb_xboard_agent.Base.Int.{ℤ, pos, negsuc, pos_part, ◌+ℤ◌, ◌-ℤ◌, ◌*ℤ◌, ltb_ℤ, leb_ℤ, wrap64}

abbrev pub billion : ℕ
billion = 1_000_000_000

-- `defaultBurstWindow`, in nanoseconds
abbrev pub default_burst_window : ℕ
default_burst_window = 200_000_000

abbrev pub max_write_chunk : ℕ
max_write_chunk = 65536

pub record RateLimiter : Type 0 where
  pub rate : ℤ
  pub burst : ℤ
  pub tokens : ℤ
  pub last : ℕ
  pub disabled : Bool
  pub closed : Bool

-- Go's division, which rounds towards zero.
unfoldable pub quot : ℤ → ℕ → ℤ
quot (pos n) d = pos (n / d)
quot (negsuc n) d = pos 0 -ℤ pos (suc n / d)

-- Whole bytes as tokens.
abbrev pub scaled : ℤ → ℤ
scaled n = n *ℤ pos billion

-- The bytes of a burst: those of 0.2 seconds, computed on int64, and at least 64 KiB.
unfoldable pub burst_of : ℤ → ℤ
unfolding quot wrap64
burst_of rate =
    let b = quot (wrap64 (rate *ℤ pos default_burst_window)) billion in
    if ltb_ℤ b (pos max_write_chunk) then pos max_write_chunk else b

-- `SetRate`
unfoldable pub set_rate : ℕ → ℤ → RateLimiter → RateLimiter
set_rate now rate l =
    let burst = burst_of rate in
    if leb_ℤ rate (pos 0)
    then record l { rate = rate; burst = burst; disabled = true; tokens = pos 0 }
    else record {
      rate = rate;
      burst = burst;
      tokens = if ltb_ℤ l.tokens (pos 0) || ltb_ℤ (scaled burst) l.tokens then pos 0 else l.tokens;
      last = now;
      disabled = false;
      closed = false;
    }

-- `NewRateLimiter`
unfoldable pub new_rate_limiter : ℕ → ℤ → RateLimiter
new_rate_limiter now rate = set_rate now rate (record {
  rate = pos 0;
  burst = pos 0;
  tokens = pos 0;
  last = now;
  disabled = false;
  closed = false;
})

-- `Close`
unfoldable pub close : RateLimiter → RateLimiter
close l = record l { closed = true; disabled = true; rate = pos 0; burst = pos 0; tokens = pos 0 }

-- The only error: `ErrLimiterClosed`.
pub data LimiterClosed : Type 0 where
  limiter_closed : LimiterClosed

min_ℤ : ℤ → ℤ → ℤ
min_ℤ a b = if ltb_ℤ b a then b else a

-- The part that `allow` and `reserve` share: the tokens earned since the last refill.
unfoldable pub refill : ℕ → RateLimiter → RateLimiter
unfolding min_ℤ
refill now l =
    let last = if nat_beq l.last 0 then now else l.last in
    if ltb last now
    then record l {
      tokens = min_ℤ (l.tokens +ℤ pos (now - last) *ℤ l.rate) (scaled l.burst);
      last = now;
    }
    else record l { last = last }

-- The tokens that n bytes cost: never more than a burst.
unfoldable pub cost : ℤ → RateLimiter → ℤ
unfolding min_ℤ
cost n l = scaled (min_ℤ n l.burst)

-- `l.disabled || l.rate <= 0 || n <= 0`
abbrev pub is_idle : ℤ → RateLimiter → Bool
is_idle n l = l.disabled || leb_ℤ l.rate (pos 0) || leb_ℤ n (pos 0)

-- The end of `allow`, after the refill, for bytes that cost `need`. A refused call keeps the refill.
unfoldable pub take_tokens : ℤ → RateLimiter → RateLimiter × Result LimiterClosed Bool
take_tokens need r =
    if ltb_ℤ r.tokens need then (r, ok false) else (record r { tokens = r.tokens -ℤ need }, ok true)

-- `allow`: whether n bytes pass now.
unfoldable pub allow_locked : ℕ → ℤ → RateLimiter → RateLimiter × Result LimiterClosed Bool
allow_locked now n l =
    if l.closed
    then (l, err limiter_closed)
    else if is_idle n l
    then (l, ok true)
    else let r = refill now l in take_tokens (cost n r) r

-- `Allow` on a limiter that is not nil.
unfoldable pub allow : ℕ → ℤ → RateLimiter → RateLimiter × Result LimiterClosed Bool
allow now n l = if leb_ℤ n (pos 0) then (l, ok true) else allow_locked now n l

-- The nanoseconds until the missing tokens are earned.
unfoldable pub wait_time : ℤ → RateLimiter → ℕ
wait_time missing l = pos_part missing / pos_part l.rate

-- The end of `reserve`, after the refill: the bytes are charged at once, into debt if need be; the
-- answer is how long to sleep.
unfoldable pub charge : ℤ → RateLimiter → RateLimiter × Result LimiterClosed ℕ
charge need r =
    let charged = record r { tokens = r.tokens -ℤ need } in
    if ltb_ℤ r.tokens need then (charged, ok (wait_time (need -ℤ r.tokens) r)) else (charged, ok 0)

unfoldable pub reserve : ℕ → ℤ → RateLimiter → RateLimiter × Result LimiterClosed ℕ
reserve now n l =
    if l.closed
    then (l, err limiter_closed)
    else if is_idle n l
    then (l, ok 0)
    else let r = refill now l in charge (cost n r) r

-- One round of `Wait`: the chunk, `none` if the limiter is off.
unfoldable pub chunk_of : ℕ → RateLimiter → ℕ
chunk_of remaining l =
    if ltb_ℤ (pos 0) l.burst && ltb_ℤ l.burst (pos remaining) then pos_part l.burst else remaining

-- What `Wait` returned and how long it slept; `out_of_readings` if the list of clock readings was
-- too short.
pub data Waited : Type 0 where
  out_of_readings : Waited
  passed : ℕ → Waited
  failed : LimiterClosed → Waited

-- After a reservation of `Wait`: stop on the error, or sleep and go on.
abbrev pub continue :
    Result LimiterClosed ℕ → (ℕ → RateLimiter × Waited) → RateLimiter → RateLimiter × Waited
continue (err e) f l = (l, failed e)
continue (ok slept) f l = f slept

-- The last reservation of `Wait` on a limiter that is off.
abbrev pub finish : ℕ → Result LimiterClosed ℕ → Waited
finish slept (err e) = failed e
finish slept (ok _) = passed slept

-- The loop of `Wait`, with one clock reading for each round.
unfoldable pub wait_loop : List ℕ → ℕ → ℕ → RateLimiter → RateLimiter × Waited
unfolding chunk_of
wait_loop times zero slept l = (l, passed slept)
wait_loop [] (suc remaining) slept l = (l, out_of_readings)
wait_loop (now ∷ times) (suc remaining) slept l =
    if l.disabled || leb_ℤ l.rate (pos 0) || l.closed
    then (let r = reserve now (pos 0) l in (r.0, finish slept r.1))
    else let chunk = chunk_of (suc remaining) l in
      let r = reserve now (pos chunk) l in
      continue r.1 (λ t. wait_loop times (suc remaining - chunk) (slept + t) r.0) r.0
