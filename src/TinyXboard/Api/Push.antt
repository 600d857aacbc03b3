-- ===== src/TinyXboard/Api/Push.antt =====
-- What a push does to the counters (tiny-xboard/api.go, tiny-xboard/store.go).
use mini_sb_xboard_agent.Base.{
  ℕ, ◌+◌, ◌≤◌, ◌≡◌, refl, ◌∙◌, Bool, true, false, not, ◌&&◌, List, [], ◌∷◌, arith, ◌==◌, Bool-cases,
  inl, inr, if◌then◌else◌,
}
use mini_sb_xboard_agent.Base.Int.{ℤ, pos, ltb_ℤ, int_eq, int_beq_iff, pos_part, max_int64, add64}
use mini_sb_xboard_agent.Base.Map.{Map, contains}
use mini_sb_xboard_agent.TinyXboard.Schema.{User}
use mini_sb_xboard_agent.TinyXboard.Store.State.{Store}
use mini_sb_xboard_agent.TinyXboard.Store.Users.{accumulate, counters_of, add_traffic}
use mini_sb_xboard_agent.TinyXboard.Store.Users.Counters.{
  counters_of-put, counters_of-put_ne, accumulate_accepted,
}
use mini_sb_xboard_agent.TinyXboard.Api.Handlers.{Entry, push_entries}

-- An entry counts if its user is known and neither amount is negative.
abbrev pub counts : Map ℤ User → Entry → Bool
counts users e = contains e.uid users && not (ltb_ℤ e.up (pos 0)) && not (ltb_ℤ e.down (pos 0))

-- What the entries that count add to one user's counters.
abbrev pub total_up : Map ℤ User → ℤ → List Entry → ℕ
total_up users uid [] = 0
total_up users uid (e ∷ es) =
    (if counts users e && e.uid == uid then pos_part e.up else 0) + total_up users uid es

abbrev pub total_down : Map ℤ User → ℤ → List Entry → ℕ
total_down users uid [] = 0
total_down users uid (e ∷ es) =
    (if counts users e && e.uid == uid then pos_part e.down else 0) + total_down users uid es

abbrev pub count_entries : Map ℤ User → List Entry → ℕ
count_entries users [] = 0
count_entries users (e ∷ es) = (if counts users e then 1 else 0) + count_entries users es

add_traffic_exact :
    (a b : ℕ) (up down : ℤ)
    → ltb_ℤ up (pos 0) ≡ false
    → ltb_ℤ down (pos 0) ≡ false
    → a + pos_part up ≤ max_int64
    → b + pos_part down ≤ max_int64
    → add_traffic (record { upload = pos a; download = pos b }) up down
      ≡ record { upload = pos (a + pos_part up); download = pos (b + pos_part down) }
unfolding add_traffic add64
add_traffic_exact a b up down hu hd fa fb = ground arith

-- What one entry adds to the counters of a user.
abbrev pub amount : Map ℤ User → ℤ → Entry → ℤ → ℕ
amount users uid e x = if counts users e && e.uid == uid then pos_part x else 0

-- One entry.
module _ (e : Entry) (s : Store) where
  one_counts : (accumulate e.uid e.up e.down s).1 ≡ counts s.users e
  unfolding accumulate
  one_counts = ground arith

  pub one_users : (accumulate e.uid e.up e.down s).0.users ≡ s.users
  unfolding accumulate
  one_users = ground arith

  refused : counts s.users e ≡ false → (accumulate e.uid e.up e.down s).0 ≡ s
  unfolding accumulate
  refused h = ground arith

  pub one_counters :
      (uid : ℤ) (a b : ℕ)
      → counters_of uid s.traffic ≡ record { upload = pos a; download = pos b }
      → a + amount s.users uid e e.up ≤ max_int64
      → b + amount s.users uid e e.down ≤ max_int64
      → counters_of uid (accumulate e.uid e.up e.down s).0.traffic ≡ record {
        upload = pos (a + amount s.users uid e e.up);
        download = pos (b + amount s.users uid e e.down);
      }
  one_counters uid a b c fa fb = elim (Bool-cases (counts s.users e)) [
    | inr ignored ↦ ground (arith, refused ignored)
    | inl counted ↦
        let known : contains e.uid s.users ≡ true = ground arith in
        let old = counters_of e.uid s.traffic in
        let done = accumulate_accepted e.uid e.up e.down s known (ground arith) (ground arith) in
        elim (Bool-cases (e.uid == uid)) [
          | inl same ↦ ground (
            arith,
            done,
            counters_of-put e.uid (add_traffic old e.up e.down) s.traffic,
            add_traffic_exact a b e.up e.down,
            int_beq_iff e.uid uid,
          )
          | inr other ↦ ground (
            arith,
            done,
            counters_of-put_ne uid e.uid (add_traffic old e.up e.down) s.traffic,
            int_beq_iff e.uid uid,
          )
        ]
  ]

-- The result of the loop, over the users that it starts from.
abbrev Adds : Map ℤ User → ℤ → ℕ → ℕ → ℕ → List Entry → Store × ℕ → Type 0
Adds users uid a b n es r =
    (counters_of uid r.0.traffic ≡ record {
      upload = pos (a + total_up users uid es);
      download = pos (b + total_down users uid es);
    })
    × (r.1 ≡ n + count_entries users es)
    × (r.0.users ≡ users)

push_entries-Adds :
    (users : Map ℤ User) (n : ℕ) (es : List Entry) (s : Store) (uid : ℤ) (a b : ℕ)
    → s.users ≡ users
    → counters_of uid s.traffic ≡ record { upload = pos a; download = pos b }
    → a + total_up users uid es ≤ max_int64
    → b + total_down users uid es ≤ max_int64
    → Adds users uid a b n es (push_entries n es s)
unfolding push_entries
push_entries-Adds users n [] s uid a b u c fa fb = (rw c (ground arith), omega arith, u)
push_entries-Adds users n (e ∷ es) s uid a b u c fa fb =
    let s' = (accumulate e.uid e.up e.down s).0 in
    let n' : ℕ = if (accumulate e.uid e.up e.down s).1 then n + 1 else n in
    let step = one_counters e s uid a b c (rw u (omega arith)) (rw u (omega arith)) in
    let (counters, number, same) =
      push_entries-Adds users n' es s' uid (a + amount users uid e e.up)
        (b + amount users uid e e.down) (one_users e s ∙ u) (simp u at step) (omega arith)
        (omega arith) in
    (rw counters (ground arith), ground (arith, one_counts e s), same)

-- A push adds to each user's two counters exactly the amounts of the entries that count for it (a
-- known user, no negative amount), as long as the sums fit an int64; it reports how many entries
-- counted, and changes no user.
pub push_entries_lem :
    (es : List Entry) (s : Store) (uid : ℤ) (a b : ℕ)
    → counters_of uid s.traffic ≡ record { upload = pos a; download = pos b }
    → a + total_up s.users uid es ≤ max_int64
    → b + total_down s.users uid es ≤ max_int64
    → (counters_of uid (push_entries 0 es s).0.traffic ≡ record {
      upload = pos (a + total_up s.users uid es);
      download = pos (b + total_down s.users uid es);
    })
      × ((push_entries 0 es s).1 ≡ count_entries s.users es)
      × ((push_entries 0 es s).0.users ≡ s.users)
push_entries_lem es s uid a b c fa fb =
    let (counters, number, same) = push_entries-Adds s.users 0 es s uid a b refl c fa fb in
    (counters, omega arith, same)
