-- ===== src/PanelApi/Merge.antt =====
-- What `MultiPanel.FetchUsers` (panelapi/multi.go) makes of the users of several panels.
use Prim.Native.Nat.{min}
use mini_sb_xboard_agent.Base.{
  ℕ, ◌+◌, ◌≡◌, Bool, ◌&&◌, ◌||◌, none, some, List, [], ◌∷◌, ◌++◌, arith, ltb, ◌==◌, if◌then◌else◌,
  ok, err,
}
use mini_sb_xboard_agent.Base.Int.{ℤ, pos, ltb_ℤ, int_eq, int_beq_iff}
use mini_sb_xboard_agent.Base.Map.{contains, contains-put}
use mini_sb_xboard_agent.PanelApi.{
  User, Merged, merge_user, merge_users, Answer, fetch_from, fetch_users,
}

-- How many users of the list have the id.
abbrev pub count_id : ℤ → List User → ℕ
count_id id [] = 0
count_id id (u ∷ us) = (if u.id == id then 1 else 0) + count_id id us

count_id-append :
    (id : ℤ) (us vs : List User) → count_id id (us ++ vs) ≡ count_id id us + count_id id vs
count_id-append id [] vs = omega arith
count_id-append id (u ∷ us) vs = omega (arith, count_id-append id us vs)

-- What the panels answered, one after the other.
abbrev pub fetched : {E : Type 0} → List (Answer E) → List User
fetched [] = []
fetched (none ∷ panels) = fetched panels
fetched (some (err e) ∷ panels) = []
fetched (some (ok us) ∷ panels) = us ++ fetched panels

-- How many users with the id come to what is merged, out of n.
abbrev added : ℤ → Merged → ℕ → ℕ
added id m n = if ltb_ℤ (pos 0) id then (if contains id m.seen then 0 else min 1 n) else n

abbrev is_seen : ℤ → Merged → ℕ → Bool
is_seen id m n = contains id m.seen || (ltb_ℤ (pos 0) id && ltb 0 n)

merge_user_count :
    (id : ℤ) (m : Merged) (u : User)
    → count_id id (merge_user m u).users
      ≡ count_id id m.users + added id m (if u.id == id then 1 else 0)
unfolding merge_user
merge_user_count id m u = ground (arith, count_id-append id m.users (u ∷ []), int_beq_iff u.id id)

merge_user_seen :
    (id : ℤ) (m : Merged) (u : User)
    → contains id (merge_user m u).seen ≡ is_seen id m (if u.id == id then 1 else 0)
unfolding merge_user
merge_user_seen id m u = ground (arith, contains-put id u.id tt m.seen, int_beq_iff u.id id)

merge_users_count :
    (id : ℤ) (m : Merged) (us : List User)
    → count_id id (merge_users m us).users ≡ count_id id m.users + added id m (count_id id us)
unfolding merge_users
merge_users_count id m [] = ground arith
merge_users_count id m (u ∷ us) = ground (
  arith,
  merge_users_count id (merge_user m u) us,
  merge_user_count id m u,
  merge_user_seen id m u,
)

merge_users_seen :
    (id : ℤ) (m : Merged) (us : List User)
    → contains id (merge_users m us).seen ≡ is_seen id m (count_id id us)
unfolding merge_users
merge_users_seen id m [] = ground arith
merge_users_seen id m (u ∷ us) =
    ground (arith, merge_users_seen id (merge_user m u) us, merge_user_seen id m u)

fetch_from_count :
    {E : Type 0} (id : ℤ) (m : Merged) (panels : List (Answer E)) {us : List User}
    → fetch_from m panels ≡ ok us
    → count_id id us ≡ count_id id m.users + added id m (count_id id (fetched panels))
unfolding fetch_from
fetch_from_count id m [] h = ground arith
fetch_from_count id m (none ∷ panels) h = fetch_from_count id m panels h
fetch_from_count id m (some (err e) ∷ panels) h = absurd (ground arith)
fetch_from_count id m (some (ok vs) ∷ panels) h = ground (
  arith,
  fetch_from_count id (merge_users m vs) panels h,
  merge_users_count id m vs,
  merge_users_seen id m vs,
  count_id-append id vs (fetched panels),
)

-- If all panels answer, the merged list has each positive id that some panel gave exactly once, no
-- other positive id, and all users without a positive id that the panels gave.
pub fetch_users_count :
    {E : Type 0} (id : ℤ) (panels : List (Answer E)) {us : List User}
    → fetch_users panels ≡ ok us
    → count_id id us ≡ (
        if ltb_ℤ (pos 0) id
        then min 1 (count_id id (fetched panels))
        else count_id id (fetched panels))
unfolding fetch_users contains
fetch_users_count id panels h =
    omega (arith, fetch_from_count id (record { seen = []; users = [] }) panels h)
