-- ===== src/TinyXboard/Store/Users/Counters.antt =====
-- What `Accumulate` (tiny-xboard/store.go) does to the counters, in range and past it.
use mini_sb_xboard_agent.Base.{ℕ, ◌+◌, ◌≤◌, ◌<◌, ◌≡◌, ◌≢◌, refl, ap, ◌∙◌, true, false, some, arith}
use mini_sb_xboard_agent.Base.Int.{
  ℤ, pos, ◌+ℤ◌, ◌≤ℤ◌, ◌<ℤ◌, int_eq, int_beq_iff, IsInt64, max_int64, add64, add64_exact,
}
use mini_sb_xboard_agent.Base.Map.{Map, lookup, contains, put, lookup-put, lookup-put_self}
use mini_sb_xboard_agent.TinyXboard.Schema.{Traffic}
use mini_sb_xboard_agent.TinyXboard.Store.State.{Store}
use mini_sb_xboard_agent.TinyXboard.Store.Users.{counters_of, add_traffic, accumulate}

pub counters_of-put :
    (uid : ℤ) (t : Traffic) (m : Map ℤ Traffic) → counters_of uid (put uid t m) ≡ t
unfolding counters_of
counters_of-put uid t m = ground (arith, lookup-put_self uid t m)

pub counters_of-put_ne :
    (j uid : ℤ) (t : Traffic) (m : Map ℤ Traffic)
    → uid ≢ j
    → counters_of j (put uid t m) ≡ counters_of j m
unfolding counters_of
counters_of-put_ne j uid t m n = ground (arith, lookup-put j uid t m, int_beq_iff uid j)

add64_overflows :
    (a b : ℕ) → a ≤ max_int64 → b ≤ max_int64 → max_int64 < a + b → add64 (pos a) (pos b) <ℤ pos 0
unfolding add64
add64_overflows a b la lb over = ground arith

module _ (uid up down : ℤ) (s : Store) where
  -- `Accumulate` answers `true` exactly for a known user and two amounts that are not negative; when
  -- it answers `false` it changes nothing.
  pub accumulate_accepts :
      (((accumulate uid up down s).1 ≡ true)
        → (contains uid s.users ≡ true) × (pos 0 ≤ℤ up) × (pos 0 ≤ℤ down))
      × ((contains uid s.users ≡ true) × (pos 0 ≤ℤ up) × (pos 0 ≤ℤ down)
          → (accumulate uid up down s).1 ≡ true)
      × ((accumulate uid up down s).1 ≡ false → (accumulate uid up down s).0 ≡ s)
  unfolding accumulate
  accumulate_accepts = (λ h. ground arith, λ h. ground arith, λ h. ground arith)

  pub accumulate_accepted :
      contains uid s.users ≡ true
      → pos 0 ≤ℤ up
      → pos 0 ≤ℤ down
      → accumulate uid up down s ≡ (
        record s {
          traffic = put uid (add_traffic (counters_of uid s.traffic) up down) s.traffic;
          dirty = true;
        },
        true,
      )
  unfolding accumulate
  accumulate_accepted k u d = ground arith

  -- An accepted entry adds its two amounts to the two counters of its user, as long as the sums fit
  -- an int64, marks the traffic dirty, and changes no other counter and no user.
  pub accumulate_adds :
      contains uid s.users ≡ true
      → pos 0 ≤ℤ up
      → pos 0 ≤ℤ down
      → IsInt64 ((counters_of uid s.traffic).upload +ℤ up)
      → IsInt64 ((counters_of uid s.traffic).download +ℤ down)
      → (lookup uid (accumulate uid up down s).0.traffic
          ≡ some (record {
            upload = (counters_of uid s.traffic).upload +ℤ up;
            download = (counters_of uid s.traffic).download +ℤ down;
          }))
        × ((accumulate uid up down s).0.dirty ≡ true)
        × ((j : ℤ) → uid ≢ j → lookup j (accumulate uid up down s).0.traffic ≡ lookup j s.traffic)
        × ((accumulate uid up down s).0.users ≡ s.users)
  unfolding add_traffic
  accumulate_adds k u d fu fd =
      let old = counters_of uid s.traffic in
      rw (accumulate_accepted k u d) (
        lookup-put_self uid (add_traffic old up down) s.traffic
            ∙ ap some (λ i. record {
              upload = add64_exact old.upload up fu i;
              download = add64_exact old.download down fd i;
            }),
        refl,
        (λ j n.
            ground
              (arith, lookup-put j uid (add_traffic old up down) s.traffic, int_beq_iff uid j)),
        refl,
      )

  -- For a known user and a download amount that is not negative: if the upload counter and the upload
  -- amount are each at most the largest int64 and their sum is not, the upload counter is negative
  -- afterwards.
  pub accumulate_overflows :
      {a b : ℕ}
      → contains uid s.users ≡ true
      → pos 0 ≤ℤ down
      → (counters_of uid s.traffic).upload ≡ pos a
      → up ≡ pos b
      → a ≤ max_int64
      → b ≤ max_int64
      → max_int64 < a + b
      → (counters_of uid (accumulate uid up down s).0.traffic).upload <ℤ pos 0
  unfolding add_traffic
  accumulate_overflows k d ea eb la lb over =
      let old = counters_of uid s.traffic in
      rw (accumulate_accepted k (ground arith) d) (
        rw (counters_of-put uid (add_traffic old up down) s.traffic, ea, eb)
          (add64_overflows _ _ la lb over))
