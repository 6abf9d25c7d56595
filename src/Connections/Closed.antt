-- ===== src/Connections/Closed.antt =====
-- What the session of an agent leaves behind (master/websocket.go handleAgentWS, waitForApproval,
-- agentReader).
use game_server_manager.Base.{
  ℕ, ◌≡◌, refl, ap, ◌∙◌, inl, inr, true, not, ◌&&◌, Option, none, some, List, arith, str_eq, nat_eq,
  insert, lookup-insert, nat_key, string_key, Has-insert, Has-delete, choose, eq_iff,
}
use game_server_manager.Protocol.{Frame, RegisterPayload}
use game_server_manager.Hub.{PendingAgent, on_register_agent, add_pending, remove_pending, new_chan}
use game_server_manager.Db.{
  Db, Faults, AgentRow, DbResult, row, no_rows, db_error, query_row, agent_by_name,
}
use game_server_manager.Db.Agents.{upsert_pending_agent}
use game_server_manager.Agents.{
  World, Admission, dropped, register_of, handle_agent_ws, pending_disconnects, on_register, admit,
  wait, wait_new, go_online, close_conn, set_db,
}
use game_server_manager.Connections.Sessions.{Incoming, admitted, agent_session}
use game_server_manager.Connections.Reading.{Unlisted, Ends, ends, agent_reader-Ends}

module _ (fault ending : Faults) (conn : ℕ) (following : List (Faults × Frame)) (w : World)
    (unlisted : Unlisted conn w.sys.hub) where
  abbrev EndsFor : Option RegisterPayload → World × Admission → Type 0
  EndsFor reg r = Ends conn (admitted conn w.sys.next following ending reg r)

  dropped-Ends : (reg : Option RegisterPayload) → EndsFor reg (close_conn conn w, dropped)
  dropped-Ends reg =
      ends _ (inl refl) (record { agents = unlisted.agents; pending = unlisted.pending })

  waited-Ends : (reg : RegisterPayload) (db : Db) → EndsFor (some reg) (wait conn reg (set_db w db))
  unfolding pending_disconnects remove_pending add_pending
  waited-Ends reg db = ends _ (inl refl) (record {
    agents = unlisted.agents;
    pending = λ m p has.
        let mine : PendingAgent = record {
          name = reg.agent_name;
          conn = conn;
          info = reg.host_info;
        } in
        let (before, other) =
          Has-delete reg.agent_name (insert reg.agent_name mine w.sys.hub.pending_agents) (m, p)
            has in
        elim (Has-insert reg.agent_name mine w.sys.hub.pending_agents (m, p) before) [
          | inl same ↦ absurd (other (ap (λ e. e.0) same))
          | inr old ↦ unlisted.pending m p old
        ];
  })

  online-Ends :
      (reg : RegisterPayload) (a : AgentRow) → EndsFor (some reg) (go_online fault conn reg a w)
  unfolding on_register_agent
  online-Ends reg a =
      agent_reader-Ends following ending
        (record { agent_id = a.id; agent_name = reg.agent_name; conn = conn; send = w.sys.next }) _
        (record {
          entry = record {
            agent_id = a.id;
            agent_name = reg.agent_name;
            conn = conn;
            send = w.sys.next;
          };
          registered =
              lookup-insert reg.agent_name reg.agent_name _ w.sys.hub.agents
              ∙ rw ((eq_iff reg.agent_name reg.agent_name).1 refl) refl;
          chan = new_chan;
          there = lookup-insert w.sys.next w.sys.next new_chan w.sys.hub.channels ∙ rw self refl;
          open_ = refl;
          reader = rw self refl;
          alone = λ m b has other. elim (Has-insert reg.agent_name _ w.sys.hub.agents (m, b) has) [
            | inl same ↦ absurd (other (ap (λ e. e.0) same))
            | inr old ↦ unlisted.agents m b old
          ];
          pending = unlisted.pending;
        })
    where
      self : nat_eq w.sys.next w.sys.next ≡ true
      self = ground arith

  new-Ends : (reg : RegisterPayload) (o : Option Db) → EndsFor (some reg) (wait_new conn reg w o)
  new-Ends reg none = dropped-Ends (some reg)
  new-Ends reg (some db) = waited-Ends reg db

  admit-Ends :
      (reg : RegisterPayload) (found : DbResult AgentRow)
      → EndsFor (some reg) (admit fault conn reg w found)
  admit-Ends reg no_rows =
      new-Ends reg (upsert_pending_agent (fault 1) reg.agent_name reg.host_info w.db)
  admit-Ends reg db_error = dropped-Ends (some reg)
  admit-Ends reg (row a) =
      choose (EndsFor (some reg)) (str_eq a.status "pending") (waited-Ends reg w.db) (
        choose (EndsFor (some reg)) (str_eq a.status "approved" && not (str_eq a.token reg.token))
          (dropped-Ends (some reg)) (online-Ends reg a))

  registered-Ends : (reg : Option RegisterPayload) → EndsFor reg (on_register fault conn w reg)
  registered-Ends none = dropped-Ends none
  registered-Ends (some reg) =
      admit-Ends reg (query_row (fault 0) (agent_by_name reg.agent_name w.db))

-- Whatever an agent sends over a new connection, and whatever statements fail: the session ends when
-- the connection does, without a panic; the connection is then closed, and neither a connected nor a
-- waiting agent is listed with it.
pub agent_session-Ends :
    (fault ending : Faults) (conn : ℕ) (i : Incoming) (w : World)
    → Unlisted conn w.sys.hub
    → Ends conn (agent_session fault ending true conn i w)
unfolding agent_session handle_agent_ws
agent_session-Ends fault ending conn i w unlisted =
    registered-Ends fault ending conn i.following w unlisted (register_of i.first)
