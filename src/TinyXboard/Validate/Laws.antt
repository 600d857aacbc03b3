-- ===== src/TinyXboard/Validate/Laws.antt =====
-- What the checks of tiny-xboard/store.go accept, stated without their loops and sets.
use mini_sb_xboard_agent.Base.{
  ◌≤◌, ◌≡◌, ◌≢◌, refl, ◌↔◌, ◌⊎◌, true, false, List, [], ◌∷◌, arith, length, All, Result, ok,
}
use mini_sb_xboard_agent.Base.Int.{ℤ, pos, ◌≤ℤ◌, int_eq, int_beq_iff}
use mini_sb_xboard_agent.Base.Map.{Map, contains, put, contains-put}
use mini_sb_xboard_agent.TinyXboard.Schema.{
  NodeEntry, NodesFile, User, UsersFile, known_version, max_users,
}
use mini_sb_xboard_agent.TinyXboard.NodeType.{is_served_type}
use mini_sb_xboard_agent.TinyXboard.Validate.{
  Invalid, check_all, validate_user, validate_node_entry, validate_users_file, validate_nodes_file,
}

-- No id stands twice.
abbrev pub DistinctBy {ℓ} : {A : Type ℓ} → (A → ℤ) → List A → Type ℓ
DistinctBy key [] = Unit
DistinctBy key (x ∷ xs) = All (λ y. key y ≢ key x) xs × DistinctBy key xs

pub record IsUser (u : User) : Type 0 where
  pub id_positive : pos 1 ≤ℤ u.id
  pub has_secret : (u.uuid ≢ []) ⊎ (u.password ≢ [])
  pub speed_limit_nonneg : pos 0 ≤ℤ u.speed_limit

pub validate_user_iff : (u : User) → (validate_user u ≡ ok tt) ↔ IsUser u
unfolding validate_user
validate_user_iff u = (λ h. ground arith, λ h. ground arith)

pub record IsNodeEntry (n : NodeEntry) : Type 0 where
  pub id_positive : pos 1 ≤ℤ n.id
  pub type_served : is_served_type n.type ≡ true
  pub port_low : pos 1 ≤ℤ n.server.port
  pub port_high : n.server.port ≤ℤ pos 65535

pub validate_node_entry_iff : (n : NodeEntry) → (validate_node_entry n ≡ ok tt) ↔ IsNodeEntry n
unfolding validate_node_entry
validate_node_entry_iff n = (λ h. ground arith, λ h. ground arith)

-- The loop accepts exactly the lists whose members pass and whose ids are new and distinct.
module _ {A : Type 0} (check : A → Result Invalid (Unit {0})) (key : A → ℤ) (P : A → Type 0)
    (check_iff : (x : A) → (check x ≡ ok tt) ↔ P x) where
  abbrev IsNew : Map ℤ Unit → A → Type 0
  IsNew seen x = contains (key x) seen ≡ false

  IsNew-after :
      (x : A) (seen : Map ℤ Unit) (xs : List A)
      → All (IsNew (put (key x) tt seen)) xs
      → All (λ y. key y ≢ key x) xs × All (IsNew seen) xs
  IsNew-after x seen [] h = (tt, tt)
  IsNew-after x seen (y ∷ ys) h =
      let (a, b) = IsNew-after x seen ys h.1 in
      (
        (λ e. ground (arith, contains-put (key y) (key x) tt seen, int_beq_iff (key x) (key y)), a),
        (ground (arith, contains-put (key y) (key x) tt seen), b),
      )

  IsNew-before :
      (x : A) (seen : Map ℤ Unit) (xs : List A)
      → All (λ y. key y ≢ key x) xs
      → All (IsNew seen) xs
      → All (IsNew (put (key x) tt seen)) xs
  IsNew-before x seen [] a b = tt
  IsNew-before x seen (y ∷ ys) a b = (
    ground (arith, contains-put (key y) (key x) tt seen, int_beq_iff (key x) (key y)),
    IsNew-before x seen ys a.1 b.1,
  )

  check_all_sound :
      (seen : Map ℤ Unit) (xs : List A)
      → check_all check key seen xs ≡ ok tt
      → All P xs × DistinctBy key xs × All (IsNew seen) xs
  unfolding check_all
  check_all_sound seen [] h = (tt, tt, tt)
  check_all_sound seen (x ∷ xs) h =
      let passed : check x ≡ ok tt = ground arith in
      let is_new : contains (key x) seen ≡ false = ground arith in
      let rest : check_all check key (put (key x) tt seen) xs ≡ ok tt = ground arith in
      let (p, d, n) = check_all_sound (put (key x) tt seen) xs rest in
      let (a, b) = IsNew-after x seen xs n in (((check_iff x).0 passed, p), (a, d), (is_new, b))

  check_all_complete :
      (seen : Map ℤ Unit) (xs : List A)
      → All P xs
      → DistinctBy key xs
      → All (IsNew seen) xs
      → check_all check key seen xs ≡ ok tt
  unfolding check_all
  check_all_complete seen [] p d n = refl
  check_all_complete seen (x ∷ xs) p d n = ground (
    arith,
    (check_iff x).1 p.0,
    check_all_complete (put (key x) tt seen) xs p.1 d.1 (IsNew-before x seen xs d.0 n.1),
  )

  All-IsNew : (xs : List A) → All (IsNew []) xs
  unfolding contains
  All-IsNew [] = tt
  All-IsNew (x ∷ xs) = (refl, All-IsNew xs)

  check_all_iff :
      (xs : List A) → (check_all check key [] xs ≡ ok tt) ↔ (All P xs × DistinctBy key xs)
  check_all_iff xs = (
    λ h. let (p, d, _) = check_all_sound [] xs h in (p, d),
    λ h. check_all_complete [] xs h.0 h.1 (All-IsNew xs),
  )

-- The version of a document: absent (0), or at most the one that the program knows.
abbrev pub IsKnownVersion : ℤ → Type 0
IsKnownVersion v = v ≤ℤ known_version

pub record IsUsersFile (uf : UsersFile) : Type 0 where
  pub version_known : IsKnownVersion uf.version
  pub few : length uf.users ≤ max_users
  pub each : All IsUser uf.users
  pub distinct : DistinctBy (λ u. u.id) uf.users

-- A users document is accepted exactly when its version is known (absent, or at most 1), it holds at
-- most 1000 users, each with a positive id, a UUID or a password, and a speed limit of 0 or more,
-- and no two have the same id.
pub validate_users_file_iff : (uf : UsersFile) → (validate_users_file uf ≡ ok tt) ↔ IsUsersFile uf
unfolding validate_users_file
validate_users_file_iff uf =
    let loop = check_all_iff validate_user (λ u. u.id) IsUser validate_user_iff uf.users in
    (λ h. ground (arith, loop.0), λ h. ground (arith, loop.1 (h.each, h.distinct)))

pub record IsNodesFile (nf : NodesFile) : Type 0 where
  pub version_known : IsKnownVersion nf.version
  pub has_token : nf.token ≢ []
  pub has_nodes : nf.nodes ≢ []
  pub each : All IsNodeEntry nf.nodes
  pub distinct : DistinctBy (λ n. n.id) nf.nodes

-- A nodes document is accepted exactly when its version is known, its token is not empty, and it
-- lists at least one node, each with a positive id, a served type and a port from 1 to 65535, and no
-- two with the same id.
pub validate_nodes_file_iff : (nf : NodesFile) → (validate_nodes_file nf ≡ ok tt) ↔ IsNodesFile nf
unfolding validate_nodes_file
validate_nodes_file_iff nf =
    let loop =
      check_all_iff validate_node_entry (λ n. n.id) IsNodeEntry validate_node_entry_iff nf.nodes in
    (λ h. ground (arith, loop.0), λ h. ground (arith, loop.1 (h.each, h.distinct)))
