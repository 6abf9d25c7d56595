-- ===== src/Connections/Reading.antt =====
-- The loop of agentReader (master/websocket.go) and what it leaves of the hub's lists.
use game_server_manager.Base.{
  ℕ, ◌≡◌, ◌≢◌, refl, ap, ◌∙◌, inl, false, some, List, [], ◌∷◌, String, str_eq, lookup, nat_key,
  string_key, Has, Has-delete, choose, find, subst,
}
use game_server_manager.Protocol.{
  Frame, message, bad_payload, unknown_type, not_envelope, register, heartbeat, server_status,
  metrics, approved, start_server, stop_server, delete_server, rcon_command, stream_logs_start,
  stream_logs_stop, log_line, rcon_response, request_metrics,
}
use game_server_manager.Hub.{
  Hub, AgentConnection, PendingAgent, Chan, Effect, done, close_chan, on_unregister_agent,
  on_agent_message, broadcast_to_ui, store_metrics,
}
use game_server_manager.Hub.Lifecycle.{System, step, has_send}
use game_server_manager.Db.{Faults}
use game_server_manager.Agents.{World, agent_reads, reader_ends, relay, set_db, apply_status}
use game_server_manager.Connections.Sessions.{agent_reader}

-- No agent and no waiting agent is listed with this connection.
pub record Unlisted (conn : ℕ) (h : Hub) : Type 0 where
  pub agents : (m : String) (a : AgentConnection) → Has (m, a) h.agents → a.conn ≢ conn
  pub pending : (m : String) (p : PendingAgent) → Has (m, p) h.pending_agents → p.conn ≢ conn

-- What reading leaves as it is.
pub record SameLists (s t : System) : Type 0 where
  pub agents : t.hub.agents ≡ s.hub.agents
  pub pending : t.hub.pending_agents ≡ s.hub.pending_agents
  pub channels : t.hub.channels ≡ s.hub.channels
  pub readers : t.readers ≡ s.readers

lists_kept : (s : System) → SameLists s s
lists_kept s = record { agents = refl; pending = refl; channels = refl; readers = refl }

SameLists-trans : (s t u : System) → SameLists s t → SameLists t u → SameLists s u
SameLists-trans s t u h k = record {
  agents = k.agents ∙ h.agents;
  pending = k.pending ∙ h.pending;
  channels = k.channels ∙ h.channels;
  readers = k.readers ∙ h.readers;
}

relay_lem : (f : Frame) (w : World) → SameLists w.sys (relay f w).sys
unfolding on_agent_message broadcast_to_ui
relay_lem f w = record { agents = refl; pending = refl; channels = refl; readers = refl }

agent_reads-SameLists :
    (fault : Faults) (a : AgentConnection) (f : Frame) (w : World)
    → SameLists w.sys (agent_reads fault a f w).sys
unfolding agent_reads store_metrics on_agent_message broadcast_to_ui
agent_reads-SameLists fault a (message (heartbeat p)) w = lists_kept w.sys
agent_reads-SameLists fault a (message (server_status p)) w =
    relay_lem (message (server_status p)) (set_db w (apply_status fault p w.db))
agent_reads-SameLists fault a (message (metrics p)) w = record {
  agents = refl;
  pending = refl;
  channels = refl;
  readers = refl;
}
agent_reads-SameLists fault a (message (register p)) w = relay_lem (message (register p)) w
agent_reads-SameLists fault a (message (approved p)) w = relay_lem (message (approved p)) w
agent_reads-SameLists fault a (message (start_server p)) w = relay_lem (message (start_server p)) w
agent_reads-SameLists fault a (message (stop_server p)) w = relay_lem (message (stop_server p)) w
agent_reads-SameLists fault a (message (delete_server p)) w =
    relay_lem (message (delete_server p)) w
agent_reads-SameLists fault a (message (rcon_command p)) w = relay_lem (message (rcon_command p)) w
agent_reads-SameLists fault a (message (stream_logs_start p)) w =
    relay_lem (message (stream_logs_start p)) w
agent_reads-SameLists fault a (message (stream_logs_stop p)) w =
    relay_lem (message (stream_logs_stop p)) w
agent_reads-SameLists fault a (message (log_line p)) w = relay_lem (message (log_line p)) w
agent_reads-SameLists fault a (message (rcon_response p)) w =
    relay_lem (message (rcon_response p)) w
agent_reads-SameLists fault a (message request_metrics) w = relay_lem (message request_metrics) w
agent_reads-SameLists fault a (bad_payload type) w =
    choose (λ (v : World). SameLists w.sys v.sys) (str_eq type "heartbeat") (lists_kept w.sys)
      (relay_lem (bad_payload type) w)
agent_reads-SameLists fault a (unknown_type type) w = relay_lem (unknown_type type) w
agent_reads-SameLists fault a not_envelope w = relay_lem not_envelope w

-- The agent of this connection is the one whose reader runs; it alone is listed with the connection,
-- under its name.
pub record Reading (agent : AgentConnection) (s : System) : Type 0 where
  pub entry : AgentConnection
  pub registered : lookup agent.agent_name s.hub.agents ≡ some entry
  pub chan : Chan
  pub there : lookup agent.send s.hub.channels ≡ some chan
  pub open_ : chan.closed ≡ false
  pub reader : find (has_send agent.send) s.readers ≡ some agent
  pub alone :
      (m : String) (a : AgentConnection)
      → Has (m, a) s.hub.agents
      → m ≢ agent.agent_name
      → a.conn ≢ agent.conn
  pub pending :
      (m : String) (p : PendingAgent) → Has (m, p) s.hub.pending_agents → p.conn ≢ agent.conn

Reading-same :
    (agent : AgentConnection) (s t : System) → SameLists s t → Reading agent s → Reading agent t
Reading-same agent s t same r = record {
  entry = r.entry;
  registered = ap (lookup agent.agent_name) same.agents ∙ r.registered;
  chan = r.chan;
  there = ap (lookup agent.send) same.channels ∙ r.there;
  open_ = r.open_;
  reader = ap (find (has_send agent.send)) same.readers ∙ r.reader;
  alone = λ m a has. r.alone m a (subst (Has (m, a)) same.agents has);
  pending = λ m p has. r.pending m p (subst (Has (m, p)) same.pending has);
}

-- How a session ends: it comes to its end, the connection is closed, and nothing is listed with it.
pub data Ends (conn : ℕ) : Effect World → Type 0 where
  ends :
      (w : World) → Has conn w.sys.hub.closed_conns → Unlisted conn w.sys.hub → Ends conn (done w)

reader_ends-Ends :
    (ending : Faults) (agent : AgentConnection) (w : World)
    → Reading agent w.sys
    → Ends agent.conn (reader_ends ending agent w)
unfolding reader_ends step on_unregister_agent close_chan
reader_ends-Ends ending agent w r =
    rw (r.reader, r.registered, r.there, r.open_)
      (ends _ (inl refl) (record {
        agents = λ m a has.
            let (before, other) = Has-delete agent.agent_name w.sys.hub.agents (m, a) has in
            r.alone m a before other;
        pending = r.pending;
      }))

pub agent_reader-Ends :
    (fs : List (Faults × Frame)) (ending : Faults) (agent : AgentConnection) (w : World)
    → Reading agent w.sys
    → Ends agent.conn (agent_reader fs ending agent w)
unfolding agent_reader
agent_reader-Ends [] ending agent w r = reader_ends-Ends ending agent w r
agent_reader-Ends ((fault, f) ∷ fs) ending agent w r =
    agent_reader-Ends fs ending agent (agent_reads fault agent f w)
      (Reading-same agent w.sys _ (agent_reads-SameLists fault agent f w) r)
