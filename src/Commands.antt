-- ===== src/Commands.antt =====
-- Commands to the agents (master/api_servers.go startServer, stopServer, deleteServer, sendRcon).
-- Sending on an agent's channel can block, so such a handler is an Effect.
pub mod Status
pub mod Refused
pub mod Linked
mod Tests
use Prim.Native.String
use game_server_manager.Base.{
  ℕ, Bool, true, false, not, Option, none, some, List, [], ◌∷◌, ◌++◌, String, if◌then◌else◌, str_eq,
  keep,
}
use game_server_manager.Base.Int.{ℤ, pos, int_eq}
use game_server_manager.Protocol.{
  Frame, message, start_server, stop_server, delete_server, rcon_command, StartServerPayload,
  GameFieldMappings,
}
use game_server_manager.Hub.{Hub, Effect, done, blocks, panics, ◌>>=◌, send_to_agent}
use game_server_manager.Db.{
  Db, Faults, ServerRow, AgentRow, exec, agent_by_id, server_by_id, update_servers, DbResult, row,
  no_rows, db_error, query_row,
}
use game_server_manager.StartPayload.{
  Joined, joined_by_id, Built, built, not_found, db_failed, nil_map_panic,
  build_server_start_payload,
}
use game_server_manager.Db.Schema.{
  server_configs_table, rcon_history_table, server_log_snapshots_table, goes_with,
}
use game_server_manager.Api.{Response, write_json, write_error, fields, driver_error}
use game_server_manager.Agents.{World, set_hub, set_db}

-- SELECT gs.container_name, a.name FROM game_servers gs JOIN agents a
abbrev pub with_agent : Option ServerRow → Db → Option (ServerRow × AgentRow)
with_agent none db = none
with_agent (some s) db = elim (agent_by_id s.agent_id db) [ none ↦ none | some a ↦ some (s, a) ]

unfoldable pub server_with_agent : ℤ → Db → Option (ServerRow × AgentRow)
server_with_agent id db = with_agent (server_by_id id db) db

abbrev pub set_status : Bool → ℤ → String → Db → Db
set_status failing id status db = exec failing db (
    update_servers (λ s. int_eq s.id id) (λ s. record s { status = status; updated_at = db.now })
      db)

abbrev pub answer_sent : Bool → ℤ → (status reply : String) → World → Hub → Bool → World × Response
answer_sent failing id status reply w h false = (set_hub w h, write_error 503 "agent not connected")
answer_sent failing id status reply w h true = (
  set_db (set_hub w h) (set_status failing id status w.db),
  write_json 200 (fields (("status", reply) ∷ [])),
)

-- if !hub.SendToAgent(…) { 503 } else { UPDATE status; 200 }
abbrev pub command_sent :
    Bool → ℤ → (status reply : String) → World → Effect (Hub × Bool) → Effect (World × Response)
command_sent failing id status reply w sent =
    sent >>= λ r. done (answer_sent failing id status reply w r.0 r.1)

abbrev pub start_built : Faults → ℤ → World → Built → Effect (World × Response)
start_built fault id w not_found = done (w, write_error 404 "server not found")
start_built fault id w db_failed = done (w, write_json 500 driver_error)
start_built fault id w nil_map_panic = panics
start_built fault id w (built p agent_name) =
    command_sent (fault 3) id "starting" "start command sent" w
      (send_to_agent agent_name (message (start_server p)) w.sys.hub)

-- startServer: statements 0 to 2 build the payload, statement 3 stores the status.
unfoldable pub start_handler : Faults → ℤ → World → Effect (World × Response)
start_handler fault id w = start_built fault id w (build_server_start_payload fault id w.db)

abbrev pub stop_found :
    Faults → ℤ → World → DbResult (ServerRow × AgentRow) → Effect (World × Response)
stop_found fault id w no_rows = done (w, write_error 404 "server not found")
stop_found fault id w db_error = done (w, write_error 500 "failed to query server")
stop_found fault id w (row (s, a)) = command_sent (fault 1) id "stopping" "stop command sent" w (
    send_to_agent a.name
      (message (stop_server (record { server_id = id; container_name = s.container_name })))
      w.sys.hub)

-- stopServer
unfoldable pub stop_handler : Faults → ℤ → World → Effect (World × Response)
stop_handler fault id w = stop_found fault id w (query_row (fault 0) (server_with_agent id w.db))

-- DELETE FROM game_servers: the configs, the RCON history and the log snapshots go with it, as their
-- ON DELETE CASCADE asks.
abbrev pub delete_server_rows : ℤ → Db → Db
delete_server_rows id db = record db {
  game_servers = keep (λ s. not (int_eq s.id id)) db.game_servers;
  server_configs =
      if goes_with server_configs_table "game_server_id"
      then keep (λ c. not (int_eq c.game_server_id id)) db.server_configs
      else db.server_configs;
  rcon_history =
      if goes_with rcon_history_table "game_server_id"
      then keep (λ c. not (int_eq c.game_server_id id)) db.rcon_history
      else db.rcon_history;
  server_log_snapshots =
      if goes_with server_log_snapshots_table "game_server_id"
      then keep (λ c. not (int_eq c.game_server_id id)) db.server_log_snapshots
      else db.server_log_snapshots;
}

abbrev pub deleted : Faults → ℤ → World → World × Response
deleted fault id w = (
  set_db w (exec (fault 1) w.db (delete_server_rows id w.db)),
  write_json 200 (fields (("status", "deleted") ∷ [])),
)

abbrev pub delete_found :
    Faults → ℤ → World → DbResult (ServerRow × AgentRow) → Effect (World × Response)
delete_found fault id w no_rows = done (deleted fault id w)
delete_found fault id w db_error = done (w, write_error 500 "failed to query server")
delete_found fault id w (row (s, a)) =
    send_to_agent a.name
      (message (
        delete_server (record {
          server_id = id;
          container_name = s.container_name;
          volume_name = String.◌++◌ s.container_name "-data";
        })))
      w.sys.hub
    >>= λ r. done (deleted fault id (set_hub w r.0))

-- deleteServer: what SendToAgent answers is not looked at.
unfoldable pub delete_handler : Faults → ℤ → World → Effect (World × Response)
delete_handler fault id w =
    delete_found fault id w (query_row (fault 0) (server_with_agent id w.db))

-- fm.RconPort, or 27015 if it is 0
abbrev pub rcon_port_or_default : ℤ → ℤ
rcon_port_or_default n = if int_eq n (pos 0) then pos 27015 else n

-- What the query of sendRcon scans into its variables.
pub record RconTarget : Type 0 where
  pub agent_name : String
  pub rcon_password : String
  pub container_name : String
  pub rcon_port : ℤ

abbrev pub empty_if_null : Option String → String
empty_if_null none = ""
empty_if_null (some s) = s

-- An error other than ErrNoRows leaves the variables at their zero values.
abbrev pub rcon_target : DbResult Joined → Option RconTarget
rcon_target no_rows = none
rcon_target db_error =
    some (record { agent_name = ""; rcon_password = ""; container_name = ""; rcon_port = pos 0 })
rcon_target (row j) = some (record {
  agent_name = j.agent.name;
  rcon_password = empty_if_null j.server.rcon_password;
  container_name = j.server.container_name;
  rcon_port = j.definition.field_mappings.rcon_port;
})

abbrev pub record_rcon : Bool → ℤ → String → Db → Db
record_rcon failing id command db = exec failing db (record db {
  rcon_history =
      db.rcon_history ++ record { game_server_id = id; command = command; sent_at = db.now } ∷ [];
})

abbrev pub answer_rcon :
    Bool → ℤ → (message_id command : String) → World → Hub → Bool → World × Response
answer_rcon failing id message_id command w h false =
    (set_hub w h, write_error 503 "agent not connected")
answer_rcon failing id message_id command w h true = (
  set_db (set_hub w h) (record_rcon failing id command w.db),
  write_json 200 (fields (("status", "rcon command sent") ∷ ("message_id", message_id) ∷ [])),
)

abbrev pub rcon_to :
    Faults
    → (message_id command : String) → ℤ
    → World
    → Option RconTarget
    → Effect (World × Response)
rcon_to fault message_id command id w none = done (w, write_error 404 "server not found")
rcon_to fault message_id command id w (some t) =
    send_to_agent t.agent_name
      (message (
        rcon_command (record {
          server_id = id;
          message_id = message_id;
          command = command;
          rcon_host = t.container_name;
          rcon_port = rcon_port_or_default t.rcon_port;
          rcon_password = t.rcon_password;
        })))
      w.sys.hub
    >>= λ r. done (answer_rcon (fault 1) id message_id command w r.0 r.1)

abbrev pub rcon_checked :
    Faults → (message_id command : String) → ℤ → World → Effect (World × Response)
rcon_checked fault message_id command id w =
    if str_eq command ""
    then done (w, write_error 400 "command is required")
    else rcon_to fault message_id command id w
        (rcon_target (query_row (fault 0) (joined_by_id id w.db)))

-- sendRcon; the message id is the clock's value in decimal.
unfoldable pub rcon_handler :
    Faults → (message_id : String) (body : Option String) → ℤ → World → Effect (World × Response)
rcon_handler fault message_id none id w = done (w, write_error 400 "command is required")
rcon_handler fault message_id (some command) id w = rcon_checked fault message_id command id w
