-- ===== src/TinyXboard/Store/State.antt =====
-- The state of `Store`, the files in its directory, and what an operation takes from outside.
use mini_sb_xboard_agent.Base.{ℕ, Bool, false, List, [], Result, ok, err}
use mini_sb_xboard_agent.Base.Int.{ℤ, int_eq}
use mini_sb_xboard_agent.Base.Text.{Text}
use mini_sb_xboard_agent.Base.Map.{Map, contains, retain}
use mini_sb_xboard_agent.TinyXboard.Schema.{
  NodeFile, NodeEntry, NodesFile, User, UsersFile, Traffic, TrafficFile,
}
use mini_sb_xboard_agent.TinyXboard.Validate.{Invalid}
use mini_sb_xboard_agent.TinyXboard.Persist.{Files, Faults, WriteError, LoadError, Codec}
use mini_sb_xboard_agent.TinyXboard.Reality.{Crypto, RealityError}

pub record Store : Type 0 where
  pub node_list : List NodeEntry
  pub panel_token : Text
  pub nodes_multi : Bool
  pub users : Map ℤ User
  pub traffic : Map ℤ Traffic
  pub users_mod : ℕ
  pub users_loaded : Bool
  pub dirty : Bool

-- The directory of the store.
pub record Disk : Type 0 where
  pub node : Files
  pub nodes : Files
  pub users : Files
  pub traffic : Files

-- The JSON codecs, at the types of the four documents.
pub record Codecs : Type 0 where
  pub node : Codec NodeFile
  pub nodes : Codec NodesFile
  pub users : Codec UsersFile
  pub traffic : Codec TrafficFile

-- What one operation meets: the codecs and the cryptography, the system calls of its write that
-- fail, the clock, the time at which users.json was last modified, and the random token.
pub record Env : Type 0 where
  pub codecs : Codecs
  pub crypto : Crypto
  pub faults : Faults
  pub unix_time : ℤ
  pub users_mod_time : ℕ
  pub random_token : Text

pub record World : Type 0 where
  pub store : Store
  pub disk : Disk

pub data StoreError : Type 0 where
  invalid : Invalid → StoreError
  write_failed : WriteError → StoreError
  load_failed : LoadError → StoreError
  reality : RealityError → StoreError
  users_backup_unusable : LoadError → StoreError
  users_backup_invalid : Invalid → StoreError
  node_backup_unusable node_backup_invalid : Invalid → StoreError
  user_exists user_missing user_limit : StoreError

-- An operation on the store and its files: it returns the new state whether it fails or not.
abbrev pub Outcome : Type 0
Outcome = World × Result StoreError (Unit {0})

-- `NewStore` before it loads anything.
abbrev pub empty_store : Store
empty_store = record {
  node_list = [];
  panel_token = [];
  nodes_multi = false;
  users = [];
  traffic = [];
  users_mod = 0;
  users_loaded = false;
  dirty = false;
}

-- `if err := a; err != nil { return err }` in front of `b`.
abbrev pub and_then : Outcome → (World → Outcome) → Outcome
and_then (w, ok _) f = f w
and_then (w, err e) f = (w, err e)

-- `v, err := r; if err != nil { return err }` in front of `f v`.
abbrev pub on_ok {ℓ} : {A : Type ℓ} → World → Result StoreError A → (A → Outcome) → Outcome
on_ok w (err e) f = (w, err e)
on_ok w (ok a) f = f a

-- The traffic counters of the users that are known.
unfoldable pub prune_to : Map ℤ User → Map ℤ Traffic → Map ℤ Traffic
prune_to users traffic = retain (λ id. contains id users) traffic
