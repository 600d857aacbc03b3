-- ===== src/TinyXboard/Store/Users/Invariant.antt =====
-- The invariant of the users and the counters of the store, kept by every operation on them
-- (tiny-xboard/store.go).
use mini_sb_xboard_agent.Base.{
  ◌+◌, ◌≤◌, ◌≡◌, refl, inl, inr, true, false, List, [], ◌∷◌, arith, length, All, ok, ◌||◌, ◌⊎◌,
  Bool-cases,
}
use mini_sb_xboard_agent.Base.Int.{ℤ, pos, ltb_ℤ, int_eq, int_beq_iff}
use mini_sb_xboard_agent.Base.Map.{
  Map, IsMap, AllEntries, contains, put, delete, retain, put-IsMap, retain-IsMap, delete-IsMap,
  put-AllEntries, delete-AllEntries, length-put, length-delete, lookup-put, lookup-retain,
  lookup-delete, contains-lookup, contains-put,
}
use mini_sb_xboard_agent.TinyXboard.Schema.{User, Traffic, max_users}
use mini_sb_xboard_agent.TinyXboard.Validate.{validate_user}
use mini_sb_xboard_agent.TinyXboard.Validate.Laws.{IsUser, validate_user_iff}
use mini_sb_xboard_agent.TinyXboard.Store.State.{Store, prune_to}
use mini_sb_xboard_agent.TinyXboard.Store.LoadUsers.{index_users}
use mini_sb_xboard_agent.TinyXboard.Store.Users.{
  validate_each, check_new_users, replace_users, insert_user, remove_user, accumulate, counters_of,
  add_traffic,
}

-- An entry of the user map: the key is the id of a valid user.
abbrev pub IsUserEntry : ℤ → User → Type 0
IsUserEntry id u = (u.id ≡ id) × IsUser u

pub record IsUserMap (users : Map ℤ User) : Type 0 where
  pub one_each : IsMap users
  pub keyed : AllEntries IsUserEntry users
  pub few : length users ≤ max_users

-- Counters exist once for each user, and only for users that are known.
pub record IsTrafficFor (users : Map ℤ User) (traffic : Map ℤ Traffic) : Type 0 where
  pub one_each : IsMap traffic
  pub known : (id : ℤ) → contains id traffic ≡ true → contains id users ≡ true

pub record IsValid (s : Store) : Type 0 where
  pub users_valid : IsUserMap s.users
  pub traffic_valid : IsTrafficFor s.users s.traffic

index_users-few :
    (m : Map ℤ User) (us : List User) → length (index_users m us) ≤ length m + length us
unfolding index_users
index_users-few m [] = omega arith
index_users-few m (u ∷ us) = omega (arith, index_users-few (put u.id u m) us, length-put u.id u m)

index_users-IsMap : (m : Map ℤ User) (us : List User) → IsMap m → IsMap (index_users m us)
unfolding index_users
index_users-IsMap m [] h = h
index_users-IsMap m (u ∷ us) h = index_users-IsMap (put u.id u m) us (put-IsMap u.id u m h)

index_users-keyed :
    (m : Map ℤ User) (us : List User)
    → AllEntries IsUserEntry m
    → All IsUser us
    → AllEntries IsUserEntry (index_users m us)
unfolding index_users
index_users-keyed m [] h p = h
index_users-keyed m (u ∷ us) h p =
    index_users-keyed (put u.id u m) us (put-AllEntries IsUserEntry u.id u m (refl, p.0) h) p.1

pub index_users-IsUserMap :
    (us : List User) → All IsUser us → length us ≤ max_users → IsUserMap (index_users [] us)
index_users-IsUserMap us p n = record {
  one_each = index_users-IsMap [] us tt;
  keyed = index_users-keyed [] us tt p;
  few = omega (arith, index_users-few [] us);
}

pub prune_to-IsTrafficFor :
    (users : Map ℤ User) (traffic : Map ℤ Traffic)
    → IsMap traffic
    → IsTrafficFor users (prune_to users traffic)
unfolding prune_to
prune_to-IsTrafficFor users traffic h = record {
  one_each = retain-IsMap (λ id. contains id users) traffic h;
  known = λ id c. ground (
    arith,
    contains-lookup id (retain (λ j. contains j users) traffic),
    lookup-retain id (λ j. contains j users) traffic,
  );
}

validate_each_sound : (us : List User) → validate_each us ≡ ok tt → All IsUser us
unfolding validate_each
validate_each_sound [] h = tt
validate_each_sound (u ∷ us) h =
    let passed : validate_user u ≡ ok tt = ground arith in
    let rest : validate_each us ≡ ok tt = ground arith in
    ((validate_user_iff u).0 passed, validate_each_sound us rest)

pub replace_users-IsValid :
    (us : List User) (s : Store)
    → check_new_users us ≡ ok tt
    → IsValid s
    → IsValid (replace_users us s)
unfolding replace_users check_new_users
replace_users-IsValid us s c v =
    let each : validate_each us ≡ ok tt = ground arith in
    record {
      users_valid = index_users-IsUserMap us (validate_each_sound us each) (ground arith);
      traffic_valid = prune_to-IsTrafficFor _ s.traffic v.traffic_valid.one_each;
    }

pub insert_user-IsValid :
    (u : User) (s : Store)
    → IsUser u
    → length s.users + 1 ≤ max_users
    → IsValid s
    → IsValid (insert_user u s)
unfolding insert_user
insert_user-IsValid u s p n v = record {
  users_valid = record {
    one_each = put-IsMap u.id u s.users v.users_valid.one_each;
    keyed = put-AllEntries IsUserEntry u.id u s.users (refl, p) v.users_valid.keyed;
    few = omega (arith, length-put u.id u s.users);
  };
  traffic_valid = record {
    one_each = v.traffic_valid.one_each;
    known = λ id c. ground (
      arith,
      v.traffic_valid.known id,
      contains-lookup id s.users,
      contains-lookup id (put u.id u s.users),
      lookup-put id u.id u s.users,
    );
  };
}

pub remove_user-IsValid : (id : ℤ) (s : Store) → IsValid s → IsValid (remove_user id s)
unfolding remove_user
remove_user-IsValid id s v = record {
  users_valid = record {
    one_each = delete-IsMap id s.users v.users_valid.one_each;
    keyed = delete-AllEntries IsUserEntry id s.users v.users_valid.keyed;
    few = omega (arith, length-delete id s.users, v.users_valid.few);
  };
  traffic_valid = record {
    one_each = delete-IsMap id s.traffic v.traffic_valid.one_each;
    known = λ j c. ground (
      arith,
      v.traffic_valid.known j,
      contains-lookup j s.users,
      contains-lookup j s.traffic,
      contains-lookup j (delete id s.users),
      contains-lookup j (delete id s.traffic),
      lookup-delete j id s.users,
      lookup-delete j id s.traffic,
    );
  };
}

put_counter-IsTrafficFor :
    (users : Map ℤ User) (traffic : Map ℤ Traffic) (uid : ℤ) (t : Traffic)
    → contains uid users ≡ true
    → IsTrafficFor users traffic
    → IsTrafficFor users (put uid t traffic)
put_counter-IsTrafficFor users traffic uid t k v = record {
  one_each = put-IsMap uid t traffic v.one_each;
  known = λ id c. ground (arith, v.known id, int_beq_iff uid id, contains-put id uid t traffic);
}

-- `Accumulate` either refuses and changes nothing, or adds to the counters of a known user and marks
-- the traffic dirty.
pub accumulate_cases :
    (uid up down : ℤ) (s : Store)
    → (accumulate uid up down s ≡ (s, false))
      ⊎ ((contains uid s.users ≡ true)
          × (accumulate uid up down s ≡ (
            record s {
              traffic = put uid (add_traffic (counters_of uid s.traffic) up down) s.traffic;
              dirty = true;
            },
            true,
          )))
unfolding accumulate
accumulate_cases uid up down s = elim (Bool-cases (ltb_ℤ up (pos 0) || ltb_ℤ down (pos 0))) [
  | inl negative ↦ inl (rw negative)
  | inr fine ↦ elim (Bool-cases (contains uid s.users)) [
    | inl known ↦ inr (known, rw (fine, known))
    | inr unknown ↦ inl (rw (fine, unknown))
  ]
]

pub accumulate-IsValid :
    (uid up down : ℤ) (s : Store) → IsValid s → IsValid (accumulate uid up down s).0
accumulate-IsValid uid up down s v = elim (accumulate_cases uid up down s) [
  | inl refused ↦ rw refused v
  | inr (known, added) ↦ rw added (record {
    users_valid = v.users_valid;
    traffic_valid = put_counter-IsTrafficFor s.users s.traffic uid _ known v.traffic_valid;
  })
]
