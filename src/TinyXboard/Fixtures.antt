-- ===== src/TinyXboard/Fixtures.antt =====
-- Concrete users, nodes, stores, files and library functions for the tests of tiny-xboard/.
use mini_sb_xboard_agent.Base.{
  ℕ, ◌≡◌, refl, Bool, true, false, Option, some, List, [], ◌∷◌, arith, length,
}
use mini_sb_xboard_agent.Base.Int.{pos, int_eq}
use mini_sb_xboard_agent.Base.Text.{Text, lit, is_empty}
use mini_sb_xboard_agent.TinyXboard.Schema.{
  NodeEntry, NodesFile, User, UsersFile, Traffic, TrafficFile, zero_node_file, zero_tls,
}
use mini_sb_xboard_agent.TinyXboard.Persist.{absent, holds, Files, no_faults, Codec}
use mini_sb_xboard_agent.TinyXboard.Persist.Load.{Decodes}
use mini_sb_xboard_agent.TinyXboard.Reality.{Crypto}
use mini_sb_xboard_agent.TinyXboard.Reality.Laws.{CryptoLaws}
use mini_sb_xboard_agent.TinyXboard.Store.State.{Store, Disk, Env, World, prune_to}
use mini_sb_xboard_agent.TinyXboard.Store.Users.Invariant.{IsValid, prune_to-IsTrafficFor}
use mini_sb_xboard_agent.Base.Map.{lookup, contains, retain}

abbrev pub alice : User
alice = record {
  id = pos 7;
  uuid = lit "u-7";
  password = [];
  name = lit "alice";
  speed_limit = pos 0;
  enabled = true;
}

abbrev pub bob : User
bob = record {
  id = pos 3;
  uuid = [];
  password = lit "secret";
  name = lit "bob";
  speed_limit = pos 10;
  enabled = false;
}

abbrev pub two_users : UsersFile
two_users = record { version = pos 1; users = alice ∷ bob ∷ [] }

abbrev pub hy2_node : NodeEntry
hy2_node = record {
  id = pos 2;
  name = lit "edge";
  type = lit "Hysteria2";
  enabled = true;
  token = lit "n2";
  server = record { listen = lit "0.0.0.0"; port = pos 8443 };
  protocol = record { type = lit "hy2"; network = []; flow = []; decryption = [] };
  tls = zero_tls;
  runtime = record { sync_interval = pos 60; traffic_flush_interval = pos 300 };
}

abbrev pub vless_node : NodeEntry
vless_node = record hy2_node { id = pos 1; type = lit "vless"; token = [] }

abbrev pub two_nodes : NodesFile
two_nodes = record { version = pos 1; token = lit "panel"; nodes = vless_node ∷ hy2_node ∷ [] }

abbrev pub five_and_six : Traffic
five_and_six = record { upload = pos 5; download = pos 6 }

abbrev pub busy_store : Store
busy_store = record {
  node_list = vless_node ∷ hy2_node ∷ [];
  panel_token = lit "panel";
  nodes_multi = true;
  users = (pos 7, alice) ∷ (pos 3, bob) ∷ [];
  traffic = (pos 7, five_and_six) ∷ [];
  users_mod = 10;
  users_loaded = true;
  dirty = true;
}

-- A codec whose documents all read as one value.
abbrev pub fixed : {A : Type 0} → A → Codec A
fixed a = record { encode = λ _. 123 ∷ 125 ∷ []; decode = λ _ _. (a, true) }

abbrev pub busy_traffic : TrafficFile
busy_traffic = record { version = pos 1; updated_at = pos 99; users = (lit "7", five_and_six) ∷ [] }

pub fixed-Decodes : {A : Type 0} (zero a : A) → Decodes (fixed a) zero a (123 ∷ 125 ∷ [])
fixed-Decodes zero a = record { small = ground arith; decoded = refl }

-- Keys of 32 bytes, with base64 replaced by the identity.
abbrev pub key : ℕ → List ℕ
key n =
    n ∷ n ∷ n ∷ n ∷ n ∷ n ∷ n ∷ n ∷ n ∷ n ∷ n ∷ n ∷ n ∷ n ∷ n ∷ n ∷ n ∷ n ∷ n ∷ n ∷ n ∷ n ∷ n ∷ n
    ∷ n ∷ n ∷ n ∷ n ∷ n ∷ n ∷ n ∷ n ∷ []

abbrev pub toy_crypto : Crypto
toy_crypto = record {
  decode_base64 = λ t. some t;
  encode_base64 = λ b. b;
  generate = some (key 1);
  is_private_key = λ _. true;
  public_key = λ k. key 2;
}

empty-length : (b : Text) → is_empty b ≡ true → length b ≡ 0
empty-length [] h = refl
empty-length (c ∷ b) h = absurd (ground arith)

key_given :
    (k : List ℕ)
    → Path (Option (List ℕ)) (some (key 1)) (some k)
    → (length k ≡ 32) × (Path Bool true true)
key_given k e = (ground arith, refl)

pub toy_crypto-CryptoLaws : CryptoLaws toy_crypto
toy_crypto-CryptoLaws = record {
  decode-encode = λ b. refl;
  encode_nonempty = empty-length;
  generated = key_given;
  public_length = λ k. refl;
}

abbrev pub paired_node : NodeEntry
paired_node = record vless_node {
  tls = record zero_tls { private_key = key 1; public_key = key 2 };
}

abbrev pub no_files : Files
no_files = record { main = absent; bak = absent; tmp = absent }

abbrev pub some_files : Files
some_files = record { main = holds (123 ∷ 125 ∷ []); bak = absent; tmp = absent }

abbrev pub empty_disk : Disk
empty_disk = record { node = no_files; nodes = no_files; users = no_files; traffic = no_files }

abbrev pub env : Env
env = record {
  codecs = record {
    node = fixed zero_node_file;
    nodes = fixed two_nodes;
    users = fixed two_users;
    traffic = fixed busy_traffic;
  };
  crypto = toy_crypto;
  faults = no_faults;
  unix_time = pos 99;
  users_mod_time = 20;
  random_token = lit "token";
}

abbrev pub busy_world : World
busy_world = record {
  store = busy_store;
  disk = record { node = no_files; nodes = some_files; users = some_files; traffic = no_files };
}

pub busy_store-IsValid : IsValid busy_store
unfolding lookup contains retain prune_to
busy_store-IsValid = record {
  users_valid = record {
    one_each = (refl, (refl, tt));
    keyed = ((refl, ground arith), ((refl, ground arith), tt));
    few = omega arith;
  };
  traffic_valid = prune_to-IsTrafficFor busy_store.users busy_store.traffic (refl, tt);
}
