-- ===== src/Agent/Users.antt =====
-- The agent's users and their rate limiters (cmd/mini-sb-agent/user_manager.go). The inbounds are
-- sing-box's: what their `AddUsers` and `DelUsers` do is a parameter. A `*limiterPair` is an address
-- into a heap, since an open connection keeps the limiters that it got.
pub mod Apply
pub mod Limits
pub mod Index
pub mod Billing
pub mod Tables
pub mod Accepted
use mini_sb_xboard_agent.Base.{
  ℕ, ◌+◌, Bool, true, false, not, ◌&&◌, ◌||◌, Option, none, some, List, [], ◌∷◌, ◌++◌, nat_beq,
  ◌==◌, if◌then◌else◌, Result, ok, err,
}
use mini_sb_xboard_agent.Base.Int.{ℤ, pos, ltb_ℤ, leb_ℤ, int_eq, wrap64, ◌*ℤ◌}
use mini_sb_xboard_agent.Base.Text.{Text, lit, text_eq, is_empty, itoa}
use mini_sb_xboard_agent.Base.Map.{Map, lookup, put, delete}
use mini_sb_xboard_agent.Counter.RateLimit.{RateLimiter, new_rate_limiter, set_rate, close, quot}
use mini_sb_xboard_agent.PanelApi.{User}

pub record LimiterPair : Type 0 where
  pub rx : RateLimiter
  pub tx : RateLimiter

-- The clock, when the two limiters of a user are made or changed. No user's are twice in one call.
abbrev pub Clock : Type 0
Clock = ℤ → ℕ × ℕ

unfoldable pub new_limiter_pair : ℕ × ℕ → ℤ → LimiterPair
new_limiter_pair now rate = record {
  rx = new_rate_limiter now.0 rate;
  tx = new_rate_limiter now.1 rate;
}

unfoldable pub set_pair_rate : ℕ × ℕ → ℤ → LimiterPair → LimiterPair
set_pair_rate now rate l = record { rx = set_rate now.0 rate l.rx; tx = set_rate now.1 rate l.tx }

unfoldable pub close_pair : LimiterPair → LimiterPair
close_pair l = record { rx = close l.rx; tx = close l.tx }

-- The manager, with the limiters behind its pointers; `next` was never handed out.
pub record UserManager : Type 0 where
  pub users : Map ℤ User
  pub by_secret : Map Text ℤ
  pub node_limit : Option LimiterPair
  pub limiters : Map ℤ ℕ
  pub heap : ℕ → LimiterPair
  pub next : ℕ

-- `mbpsToBytes`, on int64.
unfoldable pub mbps_to_bytes : ℤ → ℤ
unfolding quot wrap64
mbps_to_bytes mbps =
    if leb_ℤ mbps (pos 0) then pos 0 else quot (wrap64 (wrap64 (mbps *ℤ pos 1000) *ℤ pos 1000)) 8

-- `NewUserManager`
unfoldable pub new_user_manager : ℕ × ℕ → (ℕ → LimiterPair) → ℤ → UserManager
new_user_manager now heap node_mbps = record {
  users = [];
  by_secret = [];
  node_limit =
      if ltb_ℤ (pos 0) node_mbps
      then some (new_limiter_pair now (mbps_to_bytes node_mbps))
      else none;
  limiters = [];
  heap = heap;
  next = 0;
}

abbrev pub same_user : User → User → Bool
same_user a b =
    a.id == b.id
    && (a.uuid == b.uuid
        && (a.password == b.password && (a.name == b.name && a.speed_limit == b.speed_limit)))

-- sing-box's `VLESSUser`, less the flow, which is a constant, and `Hysteria2User`.
pub record VlessUser : Type 0 where
  pub name : Text
  pub uuid : Text

pub record Hysteria2User : Type 0 where
  pub name : Text
  pub password : Text

abbrev pub vless_user_from_panel_user : User → VlessUser
vless_user_from_panel_user u = record { name = u.uuid; uuid = u.uuid }

abbrev pub hysteria2_user : User → Hysteria2User
hysteria2_user u = record {
  name = if is_empty u.name then u.password else u.name;
  password = u.password;
}

abbrev pub store_at : (ℕ → LimiterPair) → ℕ → LimiterPair → ℕ → LimiterPair
store_at heap a p b = if nat_beq a b then p else heap b

-- `closeLimiterLocked`
unfoldable pub close_limiter : ℤ → UserManager → UserManager
close_limiter id m = elim (lookup id m.limiters) [
  | none ↦ m
  | some a ↦ record m {
    heap = store_at m.heap a (close_pair (m.heap a));
    limiters = delete id m.limiters;
  }
]

-- `updateLimiterLocked`; the Boolean is `userRateLimitBuildEnabled`.
unfoldable pub update_limiter : Bool → Clock → User → UserManager → UserManager
unfolding close_limiter
update_limiter enabled clock u m =
    let rate = mbps_to_bytes u.speed_limit in
    if not enabled || leb_ℤ u.speed_limit (pos 0)
    then close_limiter u.id m
    else elim (lookup u.id m.limiters) [
      | some a ↦ record m { heap = store_at m.heap a (set_pair_rate (clock u.id) rate (m.heap a)) }
      | none ↦ record m {
        heap = store_at m.heap m.next (new_limiter_pair (clock u.id) rate);
        limiters = put u.id m.next m.limiters;
        next = m.next + 1;
      }
    ]

-- `if secret != "" { nextSecrets[secret] = u.ID }`
abbrev pub put_secret : ℤ → Text → Map Text ℤ → Map Text ℤ
put_secret id secret m = if is_empty secret then m else put secret id m

-- The loop that makes `next` and `nextSecrets`.
unfoldable pub index_by_id : List User → Map ℤ User × Map Text ℤ → Map ℤ User × Map Text ℤ
index_by_id [] st = st
index_by_id (u ∷ us) st = index_by_id us (
    if leb_ℤ u.id (pos 0) then st else (
      put u.id u st.0,
      put_secret u.id u.name (put_secret u.id u.password (put_secret u.id u.uuid st.1)),
    ))

-- `addVless`, `delVless`, `addHy2`, `addHy2IDs` and `delHy2`.
pub record Changes : Type 0 where
  pub add_vless : List VlessUser
  pub del_vless : List Text
  pub add_hy2 : List Hysteria2User
  pub add_hy2_ids : List ℤ
  pub del_hy2 : List Text

abbrev pub no_changes : Changes
no_changes = record { add_vless = []; del_vless = []; add_hy2 = []; add_hy2_ids = []; del_hy2 = [] }

abbrev pub note_text : Text → List Text → List Text
note_text s l = if is_empty s then l else l ++ (s ∷ [])

unfoldable pub retire_user : User → Changes → Changes
retire_user u c = record c {
  del_vless = note_text u.uuid c.del_vless;
  del_hy2 = note_text u.password c.del_hy2;
}

unfoldable pub enrol_user : User → Changes → Changes
enrol_user u c = record c {
  add_vless =
      if is_empty u.uuid then c.add_vless else c.add_vless ++ (vless_user_from_panel_user u ∷ []);
  add_hy2 = if is_empty u.password then c.add_hy2 else c.add_hy2 ++ (hysteria2_user u ∷ []);
  add_hy2_ids = if is_empty u.password then c.add_hy2_ids else c.add_hy2_ids ++ (u.id ∷ []);
}

abbrev pub same_secrets : User → User → Bool
same_secrets a b = a.uuid == b.uuid && (a.password == b.password && a.name == b.name)

-- One round of the loop over the old users, and the loop.
unfoldable pub retire : Map ℤ User → ℤ × User → Changes × UserManager → Changes × UserManager
unfolding retire_user close_limiter
retire next (id, old) st = elim (lookup id next) [
  | none ↦ (retire_user old st.0, close_limiter id st.1)
  | some nu ↦ if same_secrets old nu then st else (retire_user old st.0, st.1)
]

unfoldable pub retire_all : Map ℤ User → Map ℤ User → Changes × UserManager → Changes × UserManager
retire_all next [] st = st
retire_all next (x ∷ users) st = retire_all next users (retire next x st)

-- One round of the loop over the new users, and the loop.
unfoldable pub enrol :
    Bool → Clock → Map ℤ User → ℤ × User → Changes × UserManager → Changes × UserManager
unfolding enrol_user update_limiter
enrol enabled clock users (id, nu) st = elim (lookup id users) [
  | none ↦ (enrol_user nu st.0, update_limiter enabled clock nu st.1)
  | some old ↦
      (if same_user old nu then st.0 else enrol_user nu st.0, update_limiter enabled clock nu st.1)
]

unfoldable pub enrol_all :
    Bool → Clock → Map ℤ User → Map ℤ User → Changes × UserManager → Changes × UserManager
enrol_all enabled clock users [] st = st
enrol_all enabled clock users (x ∷ next) st =
    enrol_all enabled clock users next (enrol enabled clock users x st)
