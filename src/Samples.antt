-- ===== src/Samples.antt =====
-- Concrete rows, channels and worlds for the tests.
use game_server_manager.Base.{false, none, some, [], ◌∷◌}
use game_server_manager.Base.Int.{pos}
use game_server_manager.Protocol.{HostInfo, RegisterPayload, GameFieldMappings}
use game_server_manager.Hub.{Hub, AgentConnection, PendingAgent, new_chan}
use game_server_manager.Db.{Db, Faults, AgentRow, GameDefinitionRow, GameModeRow, ServerRow}
use game_server_manager.Agents.{World}
use game_server_manager.StartPayload.{Joined}

abbrev pub no_faults : Faults
no_faults _ = false

abbrev pub lan_host : HostInfo
lan_host = record { os = "linux"; cpu_cores = pos 8; memory_gb = pos 32; disk_gb = pos 500 }

abbrev pub lan_agent : AgentRow
lan_agent = record {
  id = pos 1;
  name = "lan";
  token = "secret";
  last_seen_at = none;
  status = "approved";
  host_info = some lan_host;
  created_at = 1;
}

abbrev pub new_agent : AgentRow
new_agent = record lan_agent { id = pos 2; name = "new"; token = ""; status = "pending" }

abbrev pub cs2_fields : GameFieldMappings
cs2_fields = record {
  env_max_players = "CS2_MAXPLAYERS";
  env_password = "CS2_PW";
  env_rcon_password = "CS2_RCONPW";
  rcon_port = pos 27015;
  port_derived_vars = ("TV_PORT", pos 5) ∷ [];
}

abbrev pub cs2 : GameDefinitionRow
cs2 = record {
  id = pos 1;
  name = "Counter-Strike 2";
  slug = "cs2";
  docker_image = "cm2network/cs2";
  default_port = pos 27015;
  default_max_players = pos 10;
  default_env = some (("CS2_LAN", "1") ∷ []);
  data_path = "/home/steam/cs2-dedicated";
  field_mappings = cs2_fields;
  custom_fields = [];
}

abbrev pub casual : GameModeRow
casual = record {
  id = pos 1;
  game_definition_id = pos 1;
  name = "Casual";
  slug = "casual";
  config = ("CS2_STARTMAP", "de_dust2") ∷ [];
}

abbrev pub match_server : ServerRow
match_server = record {
  id = pos 1;
  agent_id = pos 1;
  game_definition_id = pos 1;
  game_mode_id = some (pos 1);
  name = "Match";
  container_id = none;
  container_name = "lanmaster-match";
  port = pos 27015;
  max_players = pos 10;
  password = none;
  rcon_password = some "pw";
  status = "stopped";
  created_at = 2;
  updated_at = 2;
}

abbrev pub sample_db : Db
sample_db = record {
  now = 7;
  agents_seq = 3;
  agents = lan_agent ∷ new_agent ∷ [];
  definitions_seq = 2;
  game_definitions = cs2 ∷ [];
  game_port_mappings = [];
  modes_seq = 2;
  game_modes = casual ∷ [];
  servers_seq = 2;
  game_servers = match_server ∷ [];
  server_configs = record { game_server_id = pos 1; key = "CS2_STARTMAP"; value = "de_nuke" } ∷ [];
  rcon_history = [];
  server_log_snapshots = [];
}

abbrev pub lan_conn : AgentConnection
lan_conn = record { agent_id = pos 1; agent_name = "lan"; conn = 10; send = 0 }

abbrev pub new_pending : PendingAgent
new_pending = record { name = "new"; conn = 11; info = lan_host }

-- The agent lan is connected, the agent new waits for approval.
abbrev pub sample_hub : Hub
sample_hub = record {
  agents = ("lan", lan_conn) ∷ [];
  ui_clients = [];
  pending_agents = ("new", new_pending) ∷ [];
  latest_metrics = [];
  metrics_history = [];
  channels = (0, new_chan) ∷ [];
  closed_conns = [];
  conn_writes = [];
}

abbrev pub sample_world : World
sample_world = record {
  sys = record { hub = sample_hub; next = 1; readers = lan_conn ∷ [] };
  db = sample_db;
}

-- The same tables with no agent connected.
abbrev pub offline_world : World
offline_world = record {
  sys = record { hub = record sample_hub { agents = [] }; next = 1; readers = [] };
  db = sample_db;
}

abbrev pub joined_match : Joined
joined_match = record {
  server = match_server;
  definition = cs2;
  mode = some casual;
  agent = lan_agent;
}

abbrev pub lan_register : RegisterPayload
lan_register = record { agent_name = "lan"; token = "secret"; host_info = lan_host }
