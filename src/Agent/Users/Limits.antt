-- ===== src/Agent/Users/Limits.antt =====
-- The rate limiters that the users have after `ApplyBox` (cmd/mini-sb-agent/user_manager.go).
use mini_sb_xboard_agent.Base.{
  ℕ, ◌<◌, ◌≡◌, refl, ap, ◌∙◌, Bool, not, ◌&&◌, ◌||◌, Option, none, some, [], ◌∷◌, ◌==◌, arith,
  if◌then◌else◌, Bool-cases, Option-cases, inl, inr,
}
use mini_sb_xboard_agent.Base.Int.{ℤ, pos, ltb_ℤ, leb_ℤ, int_eq}
use mini_sb_xboard_agent.Base.Map.{
  Map, IsMap, AllEntries, lookup, contains, contains-lookup, lookup-put, lookup-delete,
}
use mini_sb_xboard_agent.Counter.RateLimit.{RateLimiter, new_rate_limiter, set_rate}
use mini_sb_xboard_agent.PanelApi.{User}
use mini_sb_xboard_agent.Agent.Users.{
  LimiterPair, Clock, UserManager, Changes, new_limiter_pair, set_pair_rate, mbps_to_bytes,
  close_limiter, update_limiter, same_secrets, retire, retire_all, enrol, enrol_all,
}

-- The rates of the two limiters of a user, if the user has them.
abbrev pub rates_of : LimiterPair → ℤ × ℤ
rates_of l = (l.rx.rate, l.tx.rate)

unfoldable pub limit_of : ℤ → UserManager → Option (ℤ × ℤ)
limit_of id m = elim (lookup id m.limiters) [ none ↦ none | some a ↦ some (rates_of (m.heap a)) ]

-- What a user of the panel should be limited to.
unfoldable pub limit_for : Bool → User → Option (ℤ × ℤ)
limit_for enabled u =
    if enabled && ltb_ℤ (pos 0) u.speed_limit
    then some (mbps_to_bytes u.speed_limit, mbps_to_bytes u.speed_limit)
    else none

-- Every user has limiters of its own.
abbrev pub IsOwned : UserManager → Type 0
IsOwned m =
    ((i a : _) → lookup i m.limiters ≡ some a → a < m.next)
    × ((i j a : _) → lookup i m.limiters ≡ some a → lookup j m.limiters ≡ some a → i ≡ j)

set_rate_lem : (now : ℕ) (rate : ℤ) (l : RateLimiter) → (set_rate now rate l).rate ≡ rate
unfolding set_rate
set_rate_lem now rate l = ground arith

new_rate_limiter_lem : (now : ℕ) (rate : ℤ) → (new_rate_limiter now rate).rate ≡ rate
unfolding new_rate_limiter
new_rate_limiter_lem now rate = set_rate_lem now rate _

rates_of-set_pair_rate :
    (now : ℕ × ℕ) (rate : ℤ) (l : LimiterPair) → rates_of (set_pair_rate now rate l) ≡ (rate, rate)
unfolding set_pair_rate
rates_of-set_pair_rate now rate l =
    rw (set_rate_lem now.0 rate l.rx, set_rate_lem now.1 rate l.tx) refl

rates_of-new_limiter_pair :
    (now : ℕ × ℕ) (rate : ℤ) → rates_of (new_limiter_pair now rate) ≡ (rate, rate)
unfolding new_limiter_pair
rates_of-new_limiter_pair now rate =
    rw (new_rate_limiter_lem now.0 rate, new_rate_limiter_lem now.1 rate) refl

pub limit_of-close_limiter :
    (j id : ℤ) (m : UserManager)
    → IsOwned m
    → limit_of j (close_limiter id m) ≡ (if id == j then none else limit_of j m)
unfolding limit_of close_limiter
limit_of-close_limiter j id m owned = elim (Option-cases (lookup id m.limiters)) [
  | inl gone ↦ ground (arith, int_eq.equal_iff id j)
  | inr (a, held) ↦
      ground (arith, int_eq.equal_iff id j, lookup-delete j id m.limiters, owned.1 id j a)
]

close_limiter-IsOwned : (id : ℤ) (m : UserManager) → IsOwned m → IsOwned (close_limiter id m)
unfolding close_limiter
close_limiter-IsOwned id m owned = elim (Option-cases (lookup id m.limiters)) [
  | inl gone ↦ rw (close_limiter, gone) owned
  | inr (a, held) ↦
      rw (close_limiter, held)
        (
          λ i b f. owned.0 i b (ground (arith, lookup-delete i id m.limiters)),
          λ i j b f g.
              owned.1 i j b (ground (arith, lookup-delete i id m.limiters))
                (ground (arith, lookup-delete j id m.limiters)),
        )
]

pub limit_of-update_limiter :
    (j : ℤ) (enabled : Bool) (clock : Clock) (u : User) (m : UserManager)
    → IsOwned m
    → limit_of j (update_limiter enabled clock u m)
      ≡ (if u.id == j then limit_for enabled u else limit_of j m)
unfolding limit_of update_limiter limit_for
limit_of-update_limiter j enabled clock u m owned =
    elim (Bool-cases (not enabled || leb_ℤ u.speed_limit (pos 0))) [
      | inl off ↦ rw (update_limiter, off) (limit_of-close_limiter j u.id m owned ∙ ground arith)
      | inr on ↦ elim (Option-cases (lookup u.id m.limiters)) [
        | inl absent ↦
            rw (update_limiter, on, absent)
              elim (Option-cases (lookup j m.limiters)) [
                | inl other ↦ ground (
                  arith,
                  lookup-put j u.id m.next m.limiters,
                  rates_of-new_limiter_pair (clock u.id) (mbps_to_bytes u.speed_limit),
                )
                | inr (b, found) ↦ ground (
                  arith,
                  lookup-put j u.id m.next m.limiters,
                  int_eq.equal_iff u.id j,
                  owned.0 j b found,
                  rates_of-new_limiter_pair (clock u.id) (mbps_to_bytes u.speed_limit),
                )
              ]
        | inr (a, held) ↦
            rw (update_limiter, on, held) ground
              (
                arith,
                int_eq.equal_iff u.id j,
                owned.1 u.id j a,
                rates_of-set_pair_rate (clock u.id) (mbps_to_bytes u.speed_limit) (m.heap a),
              )
      ]
    ]

pub update_limiter-IsOwned :
    (enabled : Bool) (clock : Clock) (u : User) (m : UserManager)
    → IsOwned m
    → IsOwned (update_limiter enabled clock u m)
unfolding update_limiter
update_limiter-IsOwned enabled clock u m owned =
    elim (Bool-cases (not enabled || leb_ℤ u.speed_limit (pos 0))) [
      | inl off ↦ rw (update_limiter, off) (close_limiter-IsOwned u.id m owned)
      | inr on ↦ elim (Option-cases (lookup u.id m.limiters)) [
        | inl absent ↦
            rw (update_limiter, on, absent)
              (
                λ i b f. ground (arith, lookup-put i u.id m.next m.limiters, owned.0 i b),
                λ i j b f g. ground (
                  arith,
                  int_eq.equal_iff u.id i,
                  int_eq.equal_iff u.id j,
                  lookup-put i u.id m.next m.limiters,
                  lookup-put j u.id m.next m.limiters,
                  owned.0 i b,
                  owned.0 j b,
                  owned.1 i j b,
                ),
              )
        | inr (a, held) ↦ rw (update_limiter, on, held) owned
      ]
    ]

retire-IsOwned :
    (next : Map ℤ User) (x : ℤ × User) (st : Changes × UserManager)
    → IsOwned st.1
    → IsOwned (retire next x st).1
unfolding retire
retire-IsOwned next (id, old) st owned = elim (Option-cases (lookup id next)) [
  | inl gone ↦ rw (retire, gone) (close_limiter-IsOwned id st.1 owned)
  | inr (nu, kept) ↦ elim (Bool-cases (same_secrets old nu)) [
    | inl same ↦ rw (retire, kept, same) owned
    | inr other ↦ rw (retire, kept, other) owned
  ]
]

limit_of-retire :
    (j : ℤ) (next : Map ℤ User) (x : ℤ × User) (st : Changes × UserManager)
    → IsOwned st.1
    → limit_of j (retire next x st).1
      ≡ (if x.0 == j && not (contains x.0 next) then none else limit_of j st.1)
unfolding retire
limit_of-retire j next (id, old) st owned =
    ground (arith, contains-lookup id next, limit_of-close_limiter j id st.1 owned)

pub retire_all-IsOwned :
    (next users : Map ℤ User) (st : Changes × UserManager)
    → IsOwned st.1
    → IsOwned (retire_all next users st).1
unfolding retire_all
retire_all-IsOwned next [] st owned = owned
retire_all-IsOwned next (x ∷ users) st owned =
    retire_all-IsOwned next users (retire next x st) (retire-IsOwned next x st owned)

pub limit_of-retire_all :
    (j : ℤ) (next users : Map ℤ User) (st : Changes × UserManager)
    → IsOwned st.1
    → limit_of j (retire_all next users st).1
      ≡ (if contains j users && not (contains j next) then none else limit_of j st.1)
unfolding retire_all contains
limit_of-retire_all j next [] st owned = refl
limit_of-retire_all j next ((id, old) ∷ users) st owned =
    limit_of-retire_all j next users (retire next (id, old) st)
      (retire-IsOwned next (id, old) st owned)
    ∙ ground (arith, int_eq.equal_iff id j, limit_of-retire j next (id, old) st owned)

enrol_manager :
    (enabled : Bool) (clock : Clock) (users : Map ℤ User) (x : ℤ × User)
    (st : Changes × UserManager)
    → (enrol enabled clock users x st).1 ≡ update_limiter enabled clock x.1 st.1
unfolding enrol
enrol_manager enabled clock users (id, u) st = ground arith

pub enrol_all-IsOwned :
    (enabled : Bool) (clock : Clock) (users next : Map ℤ User) (st : Changes × UserManager)
    → IsOwned st.1
    → IsOwned (enrol_all enabled clock users next st).1
unfolding enrol_all
enrol_all-IsOwned enabled clock users [] st owned = owned
enrol_all-IsOwned enabled clock users (x ∷ next) st owned =
    enrol_all-IsOwned enabled clock users next (enrol enabled clock users x st) (
      rw (enrol_manager enabled clock users x st)
        (update_limiter-IsOwned enabled clock x.1 st.1 owned))

-- The limit of the user with a number, if there is one.
abbrev pub limit_for_known : Bool → Option User → Option (ℤ × ℤ) → Option (ℤ × ℤ)
limit_for_known enabled none l = l
limit_for_known enabled (some u) l = limit_for enabled u

pub limit_of-enrol_all :
    (j : ℤ) (enabled : Bool) (clock : Clock) (users next : Map ℤ User) (st : Changes × UserManager)
    → IsOwned st.1
    → IsMap next
    → AllEntries (λ id u. u.id ≡ id) next
    → limit_of j (enrol_all enabled clock users next st).1
      ≡ limit_for_known enabled (lookup j next) (limit_of j st.1)
unfolding enrol_all lookup
limit_of-enrol_all j enabled clock users [] st owned unique named = refl
limit_of-enrol_all j enabled clock users ((id, u) ∷ next) st owned unique named =
    let st' = enrol enabled clock users (id, u) st in
    limit_of-enrol_all j enabled clock users next st'
      (rw (enrol_manager enabled clock users (id, u) st)
        (update_limiter-IsOwned enabled clock u st.1 owned))
      unique.1 named.1
    ∙ ap (limit_for_known enabled (lookup j next)) (
        ap (limit_of j) (enrol_manager enabled clock users (id, u) st)
        ∙ limit_of-update_limiter j enabled clock u st.1 owned)
    ∙ ground (arith, int_eq.equal_iff id j, named.0)

-- The limiters change, the users do not.
abbrev pub Kept : UserManager → UserManager → Type 0
Kept m m' = (m'.users ≡ m.users) × (m'.by_secret ≡ m.by_secret)

close_limiter-Kept : (id : ℤ) (m : UserManager) → Kept m (close_limiter id m)
unfolding close_limiter
close_limiter-Kept id m = ground arith

update_limiter-Kept :
    (enabled : Bool) (clock : Clock) (u : User) (m : UserManager)
    → Kept m (update_limiter enabled clock u m)
unfolding update_limiter
update_limiter-Kept enabled clock u m = ground (arith, close_limiter-Kept u.id m)

pub retire_all-Kept :
    (next users : Map ℤ User) (st : Changes × UserManager) → Kept st.1 (retire_all next users st).1
unfolding retire_all retire
retire_all-Kept next [] st = (refl, refl)
retire_all-Kept next ((id, old) ∷ users) st =
    ground
      (arith, retire_all-Kept next users (retire next (id, old) st), close_limiter-Kept id st.1)

pub enrol_all-Kept :
    (enabled : Bool) (clock : Clock) (users next : Map ℤ User) (st : Changes × UserManager)
    → Kept st.1 (enrol_all enabled clock users next st).1
unfolding enrol_all
enrol_all-Kept enabled clock users [] st = (refl, refl)
enrol_all-Kept enabled clock users (x ∷ next) st =
    let rest = enrol_all-Kept enabled clock users next (enrol enabled clock users x st) in
    let one = update_limiter-Kept enabled clock x.1 st.1 in
    let same = enrol_manager enabled clock users x st in
    (rest.0 ∙ ap UserManager.users same ∙ one.0, rest.1 ∙ ap UserManager.by_secret same ∙ one.1)
