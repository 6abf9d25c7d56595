-- ===== src/Agents.antt =====
-- The life of an agent on the master: registration over the websocket (master/websocket.go
-- handleAgentWS, waitForApproval, agentReader), approval (master/main.go ApprovePendingAgent) and the
-- agent API (master/api_agents.go). The channel AgentMessages between a reader and the hub is
-- passed at once; what a websocket delivers is an argument.
pub mod Auth
pub mod Approval
pub mod Linked
pub mod Listings
mod Tests
use game_server_manager.Base.{
  ℕ, suc, Bool, true, false, not, ◌&&◌, Option, none, some, List, [], ◌∷◌, ◌++◌, String,
  if◌then◌else◌, leb, str_eq, lookup, insert, delete, nat_key, string_key, is_some, map, keep, find,
}
use game_server_manager.Base.Int.{ℤ, pos, int_eq}
use game_server_manager.Base.Sort.{sort}
use game_server_manager.Protocol.{
  Frame, message, bad_payload, unknown_type, not_envelope, Message, register, heartbeat,
  server_status, metrics, approved, RegisterPayload, HostInfo, ServerStatusPayload,
}
use game_server_manager.Hub.{
  Hub, AgentConnection, PendingAgent, Effect, done, blocks, panics, ◌>>=◌, add_pending,
  remove_pending, store_metrics, on_agent_message,
}
use game_server_manager.Hub.Lifecycle.{System, accept, with_hub, step, disconnects}
use game_server_manager.Db.{
  Db, AgentRow, Faults, DbResult, row, no_rows, db_error, query_row, exec, agent_by_name,
  agent_by_id, update_servers, ServerRow,
}
use game_server_manager.Db.Agents.{
  upsert_pending_agent, approve_agent, update_agent_status, update_agent_last_seen,
}
use game_server_manager.Db.Schema.{game_servers_table, refers_to}
use game_server_manager.Api.{
  Response, write_json, write_error, Body, fields, AgentListing, PendingListing,
}
use game_server_manager.Api

pub record World : Type 0 where
  pub sys : System
  pub db : Db

abbrev pub hub_of : World → Hub
hub_of w = w.sys.hub

abbrev pub set_hub : World → Hub → World
set_hub w h = record w { sys = with_hub w.sys h }

abbrev pub set_db : World → Db → World
set_db w db = record w { db = db }

-- conn.Close()
abbrev pub close_conn : ℕ → World → World
close_conn conn w = set_hub w (record w.sys.hub { closed_conns = conn ∷ w.sys.hub.closed_conns })

-- conn.WriteMessage(websocket.TextMessage, msg), its error ignored
abbrev pub write_conn : ℕ → Frame → World → World
write_conn conn f w =
    set_hub w (record w.sys.hub { conn_writes = w.sys.hub.conn_writes ++ (conn, f) ∷ [] })

-- Where handleAgentWS ends up: it closed the connection, it waits for approval, or it reads messages.
pub data Admission : Type 0 where
  dropped : Admission
  waits : PendingAgent → Admission
  reads : (agent_id : ℤ) → Admission

abbrev pub register_of : Option Frame → Option RegisterPayload
register_of (some (message (register reg))) = some reg
register_of _ = none

abbrev pub wait : ℕ → RegisterPayload → World → World × Admission
wait conn reg w =
    let p : PendingAgent = record { name = reg.agent_name; conn = conn; info = reg.host_info } in
    (set_hub w (add_pending p w.sys.hub), waits p)

abbrev pub wait_new : ℕ → RegisterPayload → World → Option Db → World × Admission
wait_new conn reg w none = (close_conn conn w, dropped)
wait_new conn reg w (some db) = wait conn reg (set_db w db)

abbrev pub go_online : Faults → ℕ → RegisterPayload → AgentRow → World → World × Admission
go_online fault conn reg a w = (
  record {
    sys = accept a.id reg.agent_name conn w.sys;
    db = update_agent_status (fault 1) reg.agent_name "online" reg.host_info w.db;
  },
  reads a.id,
)

abbrev pub admit : Faults → ℕ → RegisterPayload → World → DbResult AgentRow → World × Admission
admit fault conn reg w no_rows =
    wait_new conn reg w (upsert_pending_agent (fault 1) reg.agent_name reg.host_info w.db)
admit fault conn reg w db_error = (close_conn conn w, dropped)
admit fault conn reg w (row a) =
    if str_eq a.status "pending"
    then wait conn reg w
    else if str_eq a.status "approved" && not (str_eq a.token reg.token)
    then (close_conn conn w, dropped)
    else go_online fault conn reg a w

abbrev pub on_register : Faults → ℕ → World → Option RegisterPayload → World × Admission
on_register fault conn w none = (close_conn conn w, dropped)
on_register fault conn w (some reg) =
    admit fault conn reg w (query_row (fault 0) (agent_by_name reg.agent_name w.db))

-- handleAgentWS, for a connection whose upgrade succeeded; `first` is what the first ReadMessage
-- gives, if it succeeds.
unfoldable pub handle_agent_ws :
    Faults → (conn : ℕ) (first : Option Frame) → World → World × Admission
handle_agent_ws fault conn first w = on_register fault conn w (register_of first)

-- The end of waitForApproval: a read on the pending connection failed.
unfoldable pub pending_disconnects : PendingAgent → World → World
pending_disconnects p w = close_conn p.conn (set_hub w (remove_pending p.name w.sys.hub))

abbrev pub apply_status : Faults → ServerStatusPayload → Db → Db
apply_status fault p db = exec (fault 0) db (
    update_servers (λ s. int_eq s.id p.server_id)
      (λ s.
        if str_eq p.container_id ""
        then record s { status = p.status; updated_at = db.now }
        else record s {
          status = p.status;
          container_id = some p.container_id;
          updated_at = db.now;
        })
      db)

abbrev pub relay : Frame → World → World
relay f w = set_hub w (on_agent_message f w.sys.hub)

-- One message in agentReader's loop.
unfoldable pub agent_reads : Faults → AgentConnection → Frame → World → World
agent_reads fault agent (message (heartbeat _)) w =
    set_db w (update_agent_last_seen (fault 0) agent.agent_name w.db)
agent_reads fault agent (message (server_status p)) w =
    relay (message (server_status p)) (set_db w (apply_status fault p w.db))
agent_reads fault agent (message (metrics m)) w =
    relay (message (metrics m)) (set_hub w (store_metrics agent.agent_name m w.sys.hub))
agent_reads fault agent (message m) w = relay (message m) w
agent_reads fault agent (bad_payload type) w =
    if str_eq type "heartbeat"
    then set_db w (update_agent_last_seen (fault 0) agent.agent_name w.db)
    else relay (bad_payload type) w
agent_reads fault agent (unknown_type type) w = relay (unknown_type type) w
agent_reads fault agent not_envelope w = relay not_envelope w

abbrev pub no_host_info : HostInfo
no_host_info = record { os = ""; cpu_cores = pos 0; memory_gb = pos 0; disk_gb = pos 0 }

-- The deferred cleanup of agentReader.
unfoldable pub reader_ends : Faults → AgentConnection → World → Effect World
reader_ends fault agent w = do
  sys ← step (disconnects agent.send) w.sys
  done (
      close_conn agent.conn (record {
        sys = sys;
        db = update_agent_status (fault 0) agent.agent_name "offline" no_host_info w.db;
      }))

abbrev pub approve_pending :
    Faults → Option PendingAgent → (token : String) → ℤ → String → World → World × Bool
approve_pending fault none token id name w = (w, false)
approve_pending fault (some p) token id name w =
    let unlisted = set_hub w (remove_pending name w.sys.hub) in
    let told = write_conn p.conn (message (approved (record { token = token }))) unlisted in
    (
      record {
        sys = accept id name p.conn told.sys;
        db = update_agent_status (fault 2) name "online" p.info told.db;
      },
      true,
    )

-- Hub.ApprovePendingAgent
unfoldable pub approve_pending_agent :
    Faults → (name token : String) (id : ℤ) → World → World × Bool
approve_pending_agent fault name token id w =
    approve_pending fault (lookup name w.sys.hub.pending_agents) token id name w

abbrev pub found_name : DbResult AgentRow → Option String
found_name no_rows = none
found_name db_error = some ""
found_name (row a) = some a.name

abbrev pub finish_approval : Faults → ℤ → String → World → Option (String × Db) → World × Response
finish_approval fault id name w none = (w, write_error 500 "failed to approve agent")
finish_approval fault id name w (some (token, db)) = (
  (approve_pending_agent fault name token id (set_db w db)).0,
  write_json 200 (
      fields (
        ("status", "approved")
        ∷ ("token", token)
        ∷ ("note", "Save this token in AGENT_TOKEN env var for future reconnects")
        ∷ [])),
)

abbrev pub approve_named : Faults → Option (List ℕ) → ℤ → World → Option String → World × Response
approve_named fault rand id w none = (w, write_error 404 "agent not found")
approve_named fault rand id w (some name) =
    finish_approval fault id name w (approve_agent rand (fault 1) id w.db)

-- approveAgentHandler: an error of the first query other than ErrNoRows leaves the name empty.
unfoldable pub approve_agent_handler :
    Faults → (rand : Option (List ℕ)) → ℤ → World → World × Response
approve_agent_handler fault rand id w =
    approve_named fault rand id w (found_name (query_row (fault 0) (agent_by_id id w.db)))

-- deleteAgentHandler: game_servers.agent_id REFERENCES agents(id).
unfoldable pub delete_agent_handler : Faults → ℤ → World → World × Response
delete_agent_handler fault id w =
    if fault 0
    then (w, write_error 500 "failed to delete agent")
    else if refers_to game_servers_table "agent_id" "agents"
        && is_some (find (λ s. int_eq s.agent_id id) w.db.game_servers)
    then (w, write_error 500 "failed to delete agent")
    else (
      set_db w (record w.db { agents = keep (λ a. not (int_eq a.id id)) w.db.agents }),
      write_json 200 (fields (("status", "deleted") ∷ [])),
    )
