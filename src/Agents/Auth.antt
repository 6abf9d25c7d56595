-- ===== src/Agents/Auth.antt =====
-- Who is let in by handleAgentWS (master/websocket.go).
use mathlib.Core.Option
use game_server_manager.Base.{
  ℕ, ◌≡◌, ◌≢◌, ◌↔◌, refl, ◌∙◌, true, false, Option, none, some, String, arith, str_eq, string_key,
  eq_iff, eq_refl, find-passes,
}
use game_server_manager.Base.Int.{ℤ}
use game_server_manager.Protocol.{Frame, message, register, RegisterPayload}
use game_server_manager.Db.{
  Db, AgentRow, Faults, DbResult, row, no_rows, db_error, query_row, agent_by_name, update_agents,
}
use game_server_manager.Db.Agents.{upsert_pending_agent, update_agent_status}
use game_server_manager.Db.Rows.{find-update_rows}
use game_server_manager.Agents.{
  World, reads, admit, on_register, handle_agent_ws, wait_new, register_of,
}

-- The first message of a connection, as the bytes of a register envelope.
abbrev pub registers : RegisterPayload → Option Frame
registers reg = some (message (register reg))

admit-row :
    (fault : Faults) (conn : ℕ) (reg : RegisterPayload) (w : World) (a : AgentRow) (id : ℤ)
    → ((admit fault conn reg w (row a)).1 ≡ reads id)
      ↔ ((a.id ≡ id) × (a.status ≢ "pending") × (a.status ≡ "approved" → a.token ≡ reg.token))
admit-row fault conn reg w a id = (
  λ h. (
    ground (arith, pending, was_approved, token),
    λ e. ground (arith, pending, was_approved, token),
    λ e. ground (arith, pending, was_approved, token),
  ),
  λ (same, active, good). ground (arith, pending, was_approved, token),
)
  where
    pending : (str_eq a.status "pending" ≡ true) ↔ (a.status ≡ "pending")
    pending = eq_iff a.status "pending"

    was_approved : (str_eq a.status "approved" ≡ true) ↔ (a.status ≡ "approved")
    was_approved = eq_iff a.status "approved"

    token : (str_eq a.token reg.token ≡ true) ↔ (a.token ≡ reg.token)
    token = eq_iff a.token reg.token

-- What the master asks of a connection before it reads its messages.
pub record IsAdmitted (fault : Faults) (first : Option Frame) (db : Db) (id : ℤ) : Type 0 where
  pub reg : RegisterPayload
  pub agent : AgentRow
  pub registered : register_of first ≡ some reg
  pub answered : fault 0 ≡ false
  pub known : agent_by_name reg.agent_name db ≡ some agent
  pub same_id : agent.id ≡ id
  pub not_pending : agent.status ≢ "pending"
  pub token : agent.status ≡ "approved" → agent.token ≡ reg.token

-- The master reads messages from a connection exactly when its first message registers a name, the
-- lookup in the database succeeds and finds an agent of that name, this agent is not pending, and, if
-- its status is approved, the token is the stored one.
pub handle_agent_ws-reads_iff :
    (fault : Faults) (conn : ℕ) (first : Option Frame) (w : World) (id : ℤ)
    → ((handle_agent_ws fault conn first w).1 ≡ reads id) ↔ IsAdmitted fault first w.db id
unfolding handle_agent_ws
handle_agent_ws-reads_iff fault conn first w id = (there (register_of first) refl, back)
  where
    by_row :
        (reg : RegisterPayload) (r : DbResult AgentRow)
        → register_of first ≡ some reg
        → query_row (fault 0) (agent_by_name reg.agent_name w.db) ≡ r
        → (admit fault conn reg w r).1 ≡ reads id
        → IsAdmitted fault first w.db id
    by_row reg (row a) e q h =
        let (same, active, good) = (admit-row fault conn reg w a id).0 h in
        record {
          reg = reg;
          agent = a;
          registered = e;
          answered = ground arith;
          known = ground arith;
          same_id = same;
          not_pending = active;
          token = good;
        }
    by_row reg no_rows e q h =
        absurd (not_new (upsert_pending_agent (fault 1) reg.agent_name reg.host_info w.db) h)
      where
        not_new : (o : Option Db) → (wait_new conn reg w o).1 ≢ reads id
        not_new none h' = cc
        not_new (some db) h' = cc
    by_row reg db_error e q h = absurd (cc)

    there :
        (o : Option RegisterPayload)
        → register_of first ≡ o
        → (on_register fault conn w o).1 ≡ reads id
        → IsAdmitted fault first w.db id
    there none e h = absurd (cc)
    there (some reg) e h = by_row reg _ e refl h

    back :
        IsAdmitted fault first w.db id → (on_register fault conn w (register_of first)).1 ≡ reads id
    back v =
        rw (v.registered, v.answered, v.known)
          ((admit-row fault conn v.reg w v.agent id).1 (v.same_id, v.not_pending, v.token))

-- Once an approved agent has connected with its token, its status is online, and from then on every
-- connection that registers its name is let in, whatever token it shows.
pub handle_agent_ws_token_unchecked :
    (fault fault' : Faults) (conn conn' : ℕ) (reg other : RegisterPayload) (w : World)
    (a : AgentRow)
    → fault 0 ≡ false
    → fault 1 ≡ false
    → fault' 0 ≡ false
    → agent_by_name reg.agent_name w.db ≡ some a
    → a.status ≡ "approved"
    → a.token ≡ reg.token
    → other.agent_name ≡ reg.agent_name
    → (handle_agent_ws fault' conn'
        (registers other)
        (handle_agent_ws fault conn (registers reg) w).0).1
      ≡ reads a.id
handle_agent_ws_token_unchecked fault fault' conn conn' reg other w a f0 f1 f0' known status token
      named =
    (handle_agent_ws-reads_iff fault' conn' (registers other) _ a.id).1 record {
      reg = other;
      agent = record a {
        status = "online";
        last_seen_at = some w.db.now;
        host_info = some reg.host_info;
      };
      registered = refl;
      answered = f0';
      known = now_online;
      same_id = refl;
      not_pending = λ e. online_ne e;
      token = λ e. absurd (online_ne' e);
    }
  where
    online_ne : ◌≢◌ {A = String} "online" "pending"
    online_ne = ground (arith, eq_iff "online" "pending")

    online_ne' : ◌≢◌ {A = String} "online" "approved"
    online_ne' = ground (arith, eq_iff "online" "approved")

    change : AgentRow → AgentRow
    change x = record x {
      status = "online";
      last_seen_at = some w.db.now;
      host_info = some reg.host_info;
    }

    mine : str_eq a.name reg.agent_name ≡ true
    mine = find-passes (λ x. str_eq x.name reg.agent_name) w.db.agents a known

    after :
        (handle_agent_ws fault conn (registers reg) w).0.db
        ≡ update_agents (λ x. str_eq x.name reg.agent_name) change w.db
    after =
        unfold handle_agent_ws update_agent_status in
        rw (f0, known, admit, status, token, eq_refl reg.token, f1) refl

    now_online :
        agent_by_name other.agent_name (handle_agent_ws fault conn (registers reg) w).0.db
        ≡ some (change a)
    now_online =
        rw (named, after)
          (find-update_rows (λ x. str_eq x.name reg.agent_name) (λ x. str_eq x.name reg.agent_name)
              change w.db.agents (λ x. refl)
            ∙ rw (known, Option.map, mine) refl)
