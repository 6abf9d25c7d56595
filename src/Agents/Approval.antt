-- ===== src/Agents/Approval.antt =====
-- Approving a waiting agent (master/api_agents.go approveAgentHandler, master/main.go
-- ApprovePendingAgent), and what the end of a connection leaves in the agent's row.
use mathlib.Core.Option
use game_server_manager.Base.{
  ℕ, ◌≡◌, refl, ap, ◌∙◌, sym, true, false, none, some, List, [], ◌∷◌, ◌++◌, String, str_eq, lookup,
  lookup-insert, lookup-delete, string_key, eq_refl, find-passes,
}
use game_server_manager.Base.Int.{int_eq, int_eq_iff}
use game_server_manager.Protocol.{message, approved}
use game_server_manager.Hub.{
  AgentConnection, PendingAgent, Effect, done, blocks, panics, ◌>>=◌, remove_pending,
  on_register_agent,
}
use game_server_manager.Hub.Lifecycle.{System, step, disconnects}
use game_server_manager.Db.{Db, AgentRow, Faults, agent_by_name, agent_by_id, update_agents}
use game_server_manager.Db.Agents.{approve_agent, update_agent_status, hex_encode}
use game_server_manager.Db.Rows.{find-update_rows}
use game_server_manager.Agents.{
  World, approve_agent_handler, approve_pending_agent, approve_pending, finish_approval, found_name,
  reader_ends, no_host_info, close_conn,
}

-- What approval does to an agent that waits on a connection.
pub record IsApproved (w w' : World) (a : AgentRow) (p : PendingAgent) (token : String)
    : Type 0 where
  pub no_longer_pending : lookup a.name w'.sys.hub.pending_agents ≡ none
  pub connected :
      lookup a.name w'.sys.hub.agents
      ≡ some (record { agent_id = a.id; agent_name = a.name; conn = p.conn; send = w.sys.next })
  pub told :
      w'.sys.hub.conn_writes
      ≡ w.sys.hub.conn_writes ++ (p.conn, message (approved (record { token = token }))) ∷ []
  pub stored :
      agent_by_name a.name w'.db
      ≡ some (record a {
        token = token;
        status = "online";
        last_seen_at = some w.db.now;
        host_info = some p.info;
      })

module _ (fault : Faults) (bytes : List ℕ) (w : World) (a : AgentRow) (p : PendingAgent)
    (f0 : fault 0 ≡ false) (f1 : fault 1 ≡ false) (f2 : fault 2 ≡ false)
    (by_id : agent_by_id a.id w.db ≡ some a) (by_name : agent_by_name a.name w.db ≡ some a)
    (waiting : lookup a.name w.sys.hub.pending_agents ≡ some p) where
  abbrev token : String
  token = hex_encode bytes

  abbrev approve_row : AgentRow → AgentRow
  approve_row x = record x { token = hex_encode bytes; status = "approved" }

  abbrev online_row : AgentRow → AgentRow
  online_row x = record x {
    status = "online";
    last_seen_at = some w.db.now;
    host_info = some p.info;
  }

  abbrev approved_db : Db
  approved_db = update_agents (λ x. int_eq x.id a.id) approve_row w.db

  same_id : int_eq a.id a.id ≡ true
  same_id = (int_eq_iff a.id a.id).1 refl

  found_approved : agent_by_name a.name approved_db ≡ some (approve_row a)
  found_approved =
      find-update_rows (λ x. str_eq x.name a.name) (λ x. int_eq x.id a.id) approve_row w.db.agents
        (λ x. refl)
      ∙ rw (by_name, Option.map, same_id) refl

  found_online :
      agent_by_name a.name (update_agents (λ x. str_eq x.name a.name) online_row approved_db)
      ≡ some (online_row (approve_row a))
  found_online =
      find-update_rows (λ x. str_eq x.name a.name) (λ x. str_eq x.name a.name) online_row
        approved_db.agents (λ x. refl)
      ∙ rw (found_approved, Option.map) (rw (eq_refl a.name) refl)

  answer :
      approve_agent_handler fault (some bytes) a.id w
      ≡ finish_approval fault a.id a.name w (some (token, approved_db))
  unfolding approve_agent_handler approve_agent
  answer = rw (f0, by_id, found_name, f1) refl

  -- Approving an agent that waits, with no failing statement: the answer is 200; the agent is no
  -- longer pending and is connected on the connection on which it waited, which is told the new
  -- token; its row holds the token and the status online.
  pub approve_agent_handler-IsApproved :
      ((approve_agent_handler fault (some bytes) a.id w).1.status ≡ 200)
      × IsApproved w (approve_agent_handler fault (some bytes) a.id w).0 a p (hex_encode bytes)
  unfolding approve_pending_agent update_agent_status remove_pending on_register_agent
  approve_agent_handler-IsApproved =
      rw (answer, waiting, approve_pending, f2)
        (
          refl,
          record {
            no_longer_pending =
                lookup-delete a.name a.name w.sys.hub.pending_agents ∙ rw (eq_refl a.name) refl;
            connected = lookup-insert a.name a.name _ w.sys.hub.agents ∙ rw (eq_refl a.name) refl;
            told = refl;
            stored = found_online;
          },
        )

done-injective : (v w : World) → ◌≡◌ {A = Effect World} (done v) (done w) → v ≡ w
done-injective v w e = cc

-- When a connection's reader ends, the agent's row loses the host information that the agent sent at
-- registration: it is overwritten by an empty one.
reader_ends-host_info :
    (fault : Faults) (agent : AgentConnection) (w w' : World) (a : AgentRow)
    → fault 0 ≡ false
    → agent_by_name agent.agent_name w.db ≡ some a
    → reader_ends fault agent w ≡ done w'
    → agent_by_name agent.agent_name w'.db
      ≡ some (record a {
        status = "offline";
        last_seen_at = some w.db.now;
        host_info = some no_host_info;
      })
unfolding reader_ends update_agent_status
reader_ends-host_info fault agent w w' a f0 known h = ended (step (disconnects agent.send) w.sys) h
  where
    change : AgentRow → AgentRow
    change x = record x {
      status = "offline";
      last_seen_at = some w.db.now;
      host_info = some no_host_info;
    }

    db' : Db
    db' = update_agents (λ x. str_eq x.name agent.agent_name) change w.db

    found : agent_by_name agent.agent_name db' ≡ some (change a)
    found =
        find-update_rows (λ x. str_eq x.name agent.agent_name) (λ x. str_eq x.name agent.agent_name)
          change w.db.agents (λ x. refl)
        ∙ rw
            (
              known,
              Option.map,
              find-passes (λ x. str_eq x.name agent.agent_name) w.db.agents a known,
            )
            refl

    ended :
        (m : Effect System)
        → (m >>= λ sys. done (
            close_conn agent.conn (record {
              sys = sys;
              db = update_agent_status (fault 0) agent.agent_name "offline" no_host_info w.db;
            })))
          ≡ done w'
        → agent_by_name agent.agent_name w'.db ≡ some (change a)
    ended (done sys) e =
        let same : w'.db ≡ db' =
          sym (ap (λ (x : World). x.db) (done-injective _ w' e)) ∙ rw f0 refl in
        rw same found
    ended blocks e = absurd (cc)
    ended panics e = absurd (cc)
