-- ===== src/Master/Tests.antt =====
-- A concrete start of the master and what happens then.
use game_server_manager.Base.{
  ℕ, ◌≡◌, refl, ltb, if◌then◌else◌, true, false, none, some, Option, List, [], ◌∷◌, String, lookup,
  insert, delete, string_key,
}
use game_server_manager.Base.Int.{pos}
use game_server_manager.Protocol.{message, register, heartbeat, not_envelope}
use game_server_manager.Hub.{AgentConnection}
use game_server_manager.Hub.Lifecycle.{start}
use game_server_manager.Agents.{World}
use game_server_manager.Routes.{Request, Outside}
use game_server_manager.Games.{GameFaults}
use game_server_manager.Games.Cs2.{registered_games}
use game_server_manager.Migrations.{
  Store, run_statements, execute, create, references_exist, move, move_values,
}
use game_server_manager.Migrations.Statements.{run_migrations}
use game_server_manager.Migrations.Connect.{init_db, wait_for}
use game_server_manager.Master.{
  listens, MasterEvent, requests, agent_connects, agent_says, agent_leaves, agent_takes,
  browser_opens, browser_says, browser_closes, start_master, master_run,
}
use game_server_manager.Master.Websockets.{LinkedWorld}
use game_server_manager.Master.Runs.{master_run-Linked}
use game_server_manager.Samples.{no_faults, lan_register}

abbrev empty_store : Store
empty_store = record {
  tables = [];
  legacy = [];
  db = record {
    now = 1;
    agents_seq = 1;
    agents = [];
    definitions_seq = 1;
    game_definitions = [];
    game_port_mappings = [];
    modes_seq = 1;
    game_modes = [];
    servers_seq = 1;
    game_servers = [];
    server_configs = [];
    rcon_history = [];
    server_log_snapshots = [];
  };
}

abbrev no_game_faults : ℕ → GameFaults
no_game_faults i = record {
  upsert = false;
  delete = false;
  mapping = λ j. false;
  mode = λ j. false;
}

abbrev no_env : String → String
no_env key = ""

abbrev outside : Outside
outside = record {
  fault = no_faults;
  rand = some (1 ∷ 2 ∷ []);
  message_id = "1";
  time = "now";
  lower = λ c. c;
  name_le = λ a b. true;
}

-- The second ping succeeds.
abbrev up_at_second : ℕ → Option String
up_at_second i = if ltb i 1 then some "connection refused" else none

abbrev first_world : World
first_world = record {
  sys = start;
  db = (run_migrations no_faults no_game_faults registered_games empty_store).0.db;
}

abbrev create_match : Request
create_match = record {
  method = "POST";
  path = "/api/servers";
  create_body = some (record {
    agent_id = pos 1;
    game_definition_id = pos 1;
    game_mode_id = some (pos 1);
    name = "Match";
    port = pos 27015;
    max_players = pos 10;
    password = "";
    rcon_password = "pw";
    custom_config = ("CS2_STARTMAP", "de_nuke") ∷ [];
  });
  update_body = none;
  rcon_body = none;
}

abbrev approve_first : Request
approve_first = record create_match { path = "/api/agents/1/approve"; create_body = none }

abbrev lan : AgentConnection
lan = record { agent_id = pos 1; agent_name = "lan"; conn = 10; send = 0 }

-- An agent registers and is approved, a server is made for it while a browser watches, and the agent
-- goes away.
abbrev evening : List MasterEvent
evening =
    agent_connects no_faults 10 (some (message (register lan_register)))
    ∷ requests outside approve_first
    ∷ browser_opens 20
    ∷ requests outside create_match
    ∷ agent_says no_faults lan (message (heartbeat (record { agent_name = "lan" })))
    ∷ browser_says not_envelope
    ∷ agent_takes 0
    ∷ browser_closes 20
    ∷ agent_leaves no_faults lan
    ∷ []

listening :
    start_master no_env no_faults no_game_faults (λ url. none) up_at_second empty_store
    ≡ listens ":8080" first_world
unfolding start_master init_db wait_for run_migrations run_statements execute create
    references_exist move move_values lookup insert delete
listening = refl

master_run-Linked_example : LinkedWorld (master_run evening first_world)
master_run-Linked_example =
    master_run-Linked no_env no_faults no_game_faults (λ url. none) up_at_second empty_store
      (record { servers = tt; configs = tt }) ":8080" first_world evening listening
