-- ===== src/Master/Websockets.antt =====
-- The rows that refer to each other, under what agents do on their websockets (master/websocket.go
-- handleAgentWS, agentReader, over the agent helpers of master/db.go).
use game_server_manager.Base.{
  ◌≡◌, refl, not, ◌&&◌, Option, none, some, String, ℕ, suc, str_eq, is_some, choose, All-implies,
  if◌then◌else◌, Bool,
}
use game_server_manager.Base.Int.{int_eq}
use game_server_manager.Protocol.{
  Frame, message, bad_payload, unknown_type, not_envelope, HostInfo, RegisterPayload,
  ServerStatusPayload, register, heartbeat, server_status, metrics, approved, start_server,
  stop_server, delete_server, rcon_command, stream_logs_start, stream_logs_stop, log_line,
  rcon_response, request_metrics,
}
use game_server_manager.Hub.{AgentConnection, Effect, done, blocks, panics, ◌>>=◌}
use game_server_manager.Hub.Lifecycle.{System, step, disconnects}
use game_server_manager.Db.{
  Db, AgentRow, ServerRow, Faults, DbResult, row, no_rows, db_error, query_row, agent_by_name,
  varchar,
}
use game_server_manager.Db.Agents.{
  upsert_pending_agent, update_agent_status, update_agent_last_seen, insert_pending, touch_pending,
}
use game_server_manager.Db.Rows.{is_some-find-append}
use game_server_manager.Servers.Links.{
  Linked, ServerLinked, update_agents-Linked, update_servers-Linked, mode_exists-same, servers-same,
}
use game_server_manager.Agents.{
  World, Admission, handle_agent_ws, on_register, register_of, admit, wait_new, agent_reads,
  apply_status, reader_ends, close_conn, no_host_info,
}

insert_pending-Linked :
    (name : String) (info : HostInfo) (db : Db) → Linked db → Linked (insert_pending name info db)
insert_pending-Linked name info db h = record {
  servers =
      All-implies (ServerLinked db) (ServerLinked (insert_pending name info db)) db.game_servers
        (λ s found. (
          is_some-find-append (λ a. int_eq a.id s.agent_id) db.agents _ found.0,
          found.1,
          mode_exists-same s.game_mode_id db (insert_pending name info db) refl found.2,
        ))
        h.servers;
  configs = h.configs;
}

touch_pending-Linked :
    (name : String) (info : HostInfo) (db : Db) → Linked db → Linked (touch_pending name info db)
touch_pending-Linked name info db h =
    update_agents-Linked (λ a. str_eq a.name name)
      (λ a. record a {
        host_info = some info;
        last_seen_at = some db.now;
        status = if str_eq a.status "pending" then "pending" else a.status;
      })
      (record db { agents_seq = suc db.agents_seq }) (λ a. refl)
      (record {
        servers =
            servers-same db (record db { agents_seq = suc db.agents_seq }) db.game_servers refl refl
              refl h.servers;
        configs = h.configs;
      })

abbrev SomeLinked : Option Db → Type 0
SomeLinked none = Unit
SomeLinked (some db) = Linked db

upsert_pending_agent-Linked :
    (failing : Bool) (name : String) (info : HostInfo) (db : Db)
    → Linked db
    → SomeLinked (upsert_pending_agent failing name info db)
unfolding upsert_pending_agent
upsert_pending_agent-Linked failing name info db h = choose SomeLinked failing tt (
    choose SomeLinked (is_some (agent_by_name name db)) (touch_pending-Linked name info db h)
      (choose SomeLinked (varchar 64 name) (insert_pending-Linked name info db h) tt))

update_agent_status-Linked :
    (failing : Bool) (name status : String) (info : HostInfo) (db : Db)
    → Linked db
    → Linked (update_agent_status failing name status info db)
unfolding update_agent_status
update_agent_status-Linked failing name status info db h = choose Linked failing h (
    update_agents-Linked (λ a. str_eq a.name name)
      (λ a. record a { status = status; last_seen_at = some db.now; host_info = some info }) db
      (λ a. refl) h)

abbrev AdmittedLinked : World × Admission → Type 0
AdmittedLinked r = Linked r.0.db

pub handle_agent_ws-Linked :
    (fault : Faults) (conn : ℕ) (first : Option Frame) (w : World)
    → Linked w.db
    → Linked (handle_agent_ws fault conn first w).0.db
unfolding handle_agent_ws
handle_agent_ws-Linked fault conn first w h = registered (register_of first)
  where
    waiting :
        (reg : RegisterPayload) (o : Option Db)
        → SomeLinked o
        → AdmittedLinked (wait_new conn reg w o)
    waiting reg none k = h
    waiting reg (some db) k = k

    admitted :
        (reg : RegisterPayload) (found : DbResult AgentRow)
        → AdmittedLinked (admit fault conn reg w found)
    admitted reg no_rows =
        waiting reg _ (upsert_pending_agent-Linked (fault 1) reg.agent_name reg.host_info w.db h)
    admitted reg db_error = h
    admitted reg (row a) = choose AdmittedLinked (str_eq a.status "pending") h (
        choose AdmittedLinked (str_eq a.status "approved" && not (str_eq a.token reg.token)) h
          (update_agent_status-Linked (fault 1) reg.agent_name "online" reg.host_info w.db h))

    registered : (reg : Option RegisterPayload) → AdmittedLinked (on_register fault conn w reg)
    registered none = h
    registered (some reg) = admitted reg (query_row (fault 0) (agent_by_name reg.agent_name w.db))

last_seen-Linked :
    (failing : Bool) (name : String) (db : Db)
    → Linked db
    → Linked (update_agent_last_seen failing name db)
unfolding update_agent_last_seen
last_seen-Linked failing name db h = choose Linked failing h (
    update_agents-Linked (λ a. str_eq a.name name) (λ a. record a { last_seen_at = some db.now }) db
      (λ a. refl) h)

apply_status-Linked :
    (fault : Faults) (p : ServerStatusPayload) (db : Db)
    → Linked db
    → Linked (apply_status fault p db)
apply_status-Linked fault p db h = choose Linked (fault 0) h (
    update_servers-Linked (λ s. int_eq s.id p.server_id) change db
      (λ s. choose (λ (x : ServerRow). x.id ≡ s.id) (str_eq p.container_id "") refl refl)
      (λ s k. choose (ServerLinked db) (str_eq p.container_id "") k k) h)
  where
    change : ServerRow → ServerRow
    change s =
        if str_eq p.container_id ""
        then record s { status = p.status; updated_at = db.now }
        else record s { status = p.status; container_id = some p.container_id; updated_at = db.now }

pub agent_reads-Linked :
    (fault : Faults) (a : AgentConnection) (f : Frame) (w : World)
    → Linked w.db
    → Linked (agent_reads fault a f w).db
unfolding agent_reads
agent_reads-Linked fault a (message (heartbeat p)) w h =
    last_seen-Linked (fault 0) a.agent_name w.db h
agent_reads-Linked fault a (message (server_status p)) w h = apply_status-Linked fault p w.db h
agent_reads-Linked fault a (message (metrics p)) w h = h
agent_reads-Linked fault a (message (register p)) w h = h
agent_reads-Linked fault a (message (approved p)) w h = h
agent_reads-Linked fault a (message (start_server p)) w h = h
agent_reads-Linked fault a (message (stop_server p)) w h = h
agent_reads-Linked fault a (message (delete_server p)) w h = h
agent_reads-Linked fault a (message (rcon_command p)) w h = h
agent_reads-Linked fault a (message (stream_logs_start p)) w h = h
agent_reads-Linked fault a (message (stream_logs_stop p)) w h = h
agent_reads-Linked fault a (message (log_line p)) w h = h
agent_reads-Linked fault a (message (rcon_response p)) w h = h
agent_reads-Linked fault a (message request_metrics) w h = h
agent_reads-Linked fault a (bad_payload type) w h =
    choose (λ (v : World). Linked v.db) (str_eq type "heartbeat")
      (last_seen-Linked (fault 0) a.agent_name w.db h) h
agent_reads-Linked fault a (unknown_type type) w h = h
agent_reads-Linked fault a not_envelope w h = h

-- What a step leaves, if it comes to its end.
pub data LinkedWorld : Effect World → Type 0 where
  goes_on : (w : World) → Linked w.db → LinkedWorld (done w)
  waits_for_ever : LinkedWorld blocks
  panicked_there : LinkedWorld panics

pub reader_ends-Linked :
    (fault : Faults) (a : AgentConnection) (w : World)
    → Linked w.db
    → LinkedWorld (reader_ends fault a w)
unfolding reader_ends
reader_ends-Linked fault a w h = ended (step (disconnects a.send) w.sys)
  where
    ended :
        (e : Effect System)
        → LinkedWorld (
            e >>= λ sys. done (
              close_conn a.conn (record {
                sys = sys;
                db = update_agent_status (fault 0) a.agent_name "offline" no_host_info w.db;
              })))
    ended (done sys) =
        goes_on _ (update_agent_status-Linked (fault 0) a.agent_name "offline" no_host_info w.db h)
    ended blocks = waits_for_ever
    ended panics = panicked_there
