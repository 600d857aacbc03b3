-- ===== src/TinyXboard/Schema.antt =====
-- The documents of tiny-xboard/store.go: node.json, nodes.json, users.json and traffic.json, and the
-- limits on them.
use mini_sb_xboard_agent.Base.{ℕ, Bool, true, false, List, []}
use mini_sb_xboard_agent.Base.Int.{ℤ, pos}
use mini_sb_xboard_agent.Base.Text.{Text, lit}
use mini_sb_xboard_agent.Base.Map.{Map}

abbrev pub known_version : ℤ
known_version = pos 1

abbrev pub max_users : ℕ
max_users = 1000

abbrev pub default_sync_interval : ℤ
default_sync_interval = pos 60

abbrev pub default_traffic_flush_interval : ℤ
default_traffic_flush_interval = pos 300

pub record NodeInfo : Type 0 where
  pub id : ℤ
  pub name : Text
  pub type : Text
  pub enabled : Bool

pub record AuthCfg : Type 0 where
  pub token : Text

pub record ServerCfg : Type 0 where
  pub listen : Text
  pub port : ℤ

pub record ProtocolCfg : Type 0 where
  pub type : Text
  pub network : Text
  pub flow : Text
  pub decryption : Text

pub record TlsCfg : Type 0 where
  pub enabled : Bool
  pub server_name : Text
  pub server_port : ℤ
  pub public_key : Text
  pub private_key : Text
  pub short_id : Text
  pub allow_insecure : Bool

pub record RuntimeCfg : Type 0 where
  pub sync_interval : ℤ
  pub traffic_flush_interval : ℤ

pub record NodeFile : Type 0 where
  pub version : ℤ
  pub node : NodeInfo
  pub auth : AuthCfg
  pub server : ServerCfg
  pub protocol : ProtocolCfg
  pub tls : TlsCfg
  pub runtime : RuntimeCfg

pub record NodeEntry : Type 0 where
  pub id : ℤ
  pub name : Text
  pub type : Text
  pub enabled : Bool
  pub token : Text
  pub server : ServerCfg
  pub protocol : ProtocolCfg
  pub tls : TlsCfg
  pub runtime : RuntimeCfg

pub record NodesFile : Type 0 where
  pub version : ℤ
  pub token : Text
  pub nodes : List NodeEntry

unfoldable pub entry_from_node_file : NodeFile → NodeEntry
entry_from_node_file nf = record {
  id = nf.node.id;
  name = nf.node.name;
  type = nf.node.type;
  enabled = nf.node.enabled;
  token = [];
  server = nf.server;
  protocol = nf.protocol;
  tls = nf.tls;
  runtime = nf.runtime;
}

unfoldable pub node_file_from_entry : NodeEntry → Text → NodeFile
node_file_from_entry e token = record {
  version = known_version;
  node = record { id = e.id; name = e.name; type = e.type; enabled = e.enabled };
  auth = record { token = token };
  server = e.server;
  protocol = e.protocol;
  tls = e.tls;
  runtime = e.runtime;
}

pub record User : Type 0 where
  pub id : ℤ
  pub uuid : Text
  pub password : Text
  pub name : Text
  pub speed_limit : ℤ
  pub enabled : Bool

pub record UsersFile : Type 0 where
  pub version : ℤ
  pub users : List User

pub record Traffic : Type 0 where
  pub upload : ℤ
  pub download : ℤ

pub record TrafficFile : Type 0 where
  pub version : ℤ
  pub updated_at : ℤ
  pub users : Map Text Traffic

-- The zero values that the decoders start from.
abbrev pub zero_tls : TlsCfg
zero_tls = record {
  enabled = false;
  server_name = [];
  server_port = pos 0;
  public_key = [];
  private_key = [];
  short_id = [];
  allow_insecure = false;
}

abbrev pub zero_node_file : NodeFile
zero_node_file = record {
  version = pos 0;
  node = record { id = pos 0; name = []; type = []; enabled = false };
  auth = record { token = [] };
  server = record { listen = []; port = pos 0 };
  protocol = record { type = []; network = []; flow = []; decryption = [] };
  tls = zero_tls;
  runtime = record { sync_interval = pos 0; traffic_flush_interval = pos 0 };
}

abbrev pub zero_nodes_file : NodesFile
zero_nodes_file = record { version = pos 0; token = []; nodes = [] }

abbrev pub zero_users_file : UsersFile
zero_users_file = record { version = pos 0; users = [] }

abbrev pub zero_traffic_file : TrafficFile
zero_traffic_file = record { version = pos 0; updated_at = pos 0; users = [] }

-- `defaultNode`, given the random token.
unfoldable pub default_node : Text → NodeFile
default_node random_token = record {
  version = known_version;
  node = record { id = pos 1; name = lit "nat-vless-01"; type = lit "vless"; enabled = true };
  auth = record { token = random_token };
  server = record { listen = lit "0.0.0.0"; port = pos 443 };
  protocol = record {
    type = lit "vless";
    network = lit "tcp";
    flow = lit "xtls-rprx-vision";
    decryption = lit "none";
  };
  tls = record {
    enabled = true;
    server_name = lit "www.microsoft.com";
    server_port = pos 443;
    public_key = [];
    private_key = [];
    short_id = lit "abcd1234";
    allow_insecure = true;
  };
  runtime = record {
    sync_interval = default_sync_interval;
    traffic_flush_interval = default_traffic_flush_interval;
  };
}
