-- ===== src/Connections/Sessions.antt =====
-- The websocket of an agent from its first message to its end (master/websocket.go handleAgentWS,
-- waitForApproval, agentReader), with nothing else going on meanwhile.
use game_server_manager.Base.{ℕ, Bool, Option, none, some, List, [], ◌∷◌, if◌then◌else◌}
use game_server_manager.Base.Int.{ℤ}
use game_server_manager.Protocol.{Frame, RegisterPayload}
use game_server_manager.Hub.{AgentConnection, Effect, done}
use game_server_manager.Db.{Faults}
use game_server_manager.Agents.{
  World, Admission, dropped, waits, reads, register_of, handle_agent_ws, pending_disconnects,
  agent_reads, reader_ends,
}

-- The loop of agentReader, each message with the statements that fail for it, until a read fails;
-- then the cleanup.
unfoldable pub agent_reader :
    List (Faults × Frame) → (ending : Faults) → AgentConnection → World → Effect World
agent_reader [] ending agent w = reader_ends ending agent w
agent_reader ((fault, f) ∷ rest) ending agent w =
    agent_reader rest ending agent (agent_reads fault agent f w)

-- What comes over a connection: the first message, if it can be read, and those that follow.
pub record Incoming : Type 0 where
  pub first : Option Frame
  pub following : List (Faults × Frame)

module _ (conn send : ℕ) (following : List (Faults × Frame)) (ending : Faults) where
  -- The AgentConnection that handleAgentWS made, its channel the next one.
  abbrev pub read_on : Option RegisterPayload → ℤ → World → Effect World
  read_on none agent_id w = done w
  read_on (some reg) agent_id w =
      agent_reader following ending
        (record { agent_id = agent_id; agent_name = reg.agent_name; conn = conn; send = send }) w

  -- waitForApproval ignores what it reads.
  abbrev pub admitted : Option RegisterPayload → World × Admission → Effect World
  admitted reg (w, dropped) = done w
  admitted reg (w, waits p) = done (pending_disconnects p w)
  admitted reg (w, reads agent_id) = read_on reg agent_id w

-- The whole of handleAgentWS: what it does up to reading, and what it waits for.
unfoldable pub agent_session :
    (fault ending : Faults) (upgraded : Bool) (conn : ℕ) → Incoming → World → Effect World
agent_session fault ending upgraded conn i w =
    if upgraded
    then admitted conn w.sys.next i.following ending (register_of i.first)
        (handle_agent_ws fault conn i.first w)
    else done w
