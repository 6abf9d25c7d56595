-- ===== src/AgentProcess/Reconnect.antt =====
-- The token of an agent after its approval: in the process that was approved, and after a new start
-- (agent/main.go main; agent/agent.go handleMessage, NewAgent, register).
use game_server_manager.Base.{◌≡◌, refl, ap, sym, true, false, Option, some, String, str_eq}
use game_server_manager.Protocol.{message, register, approved, ApprovedPayload}
use game_server_manager.Hub.{done}
use game_server_manager.AgentProcess.Unstopped.{done-injective}
use game_server_manager.Rcon.{Bytes}
use game_server_manager.Rcon.Session.{Peer, RconError}
use game_server_manager.Docker.{Client}
use game_server_manager.AgentProcess.{Agent, handle_message}
use game_server_manager.AgentProcess.Lifecycle.{
  load_config, new_agent, HostMeasured, get_host_info, Connected, session, connect, registration,
}

-- The agent's first message on a new connection bears this name and this token.
abbrev pub RegistersWith :
    {S : Type 0} → (agent_name token : String) → HostMeasured → Agent S → Connected S → Type 0
RegistersWith agent_name token host a c =
    c
    ≡ session
        (message (
          register
            (record { agent_name = agent_name; token = token; host_info = get_host_info host })))
        a

module _ {S : Type 0} (client : Client S) (network : String) (dial : String → Option Peer)
    (utf8 : String → Bytes) (error_text : RconError → String) where
  -- After an approval whose token file could be written, a new start of the process registers with the
  -- token of the approval, if that is not empty, while the same process registers, on its next
  -- connection, with the token that it had at its start.
  approved-RegistersWith :
      (env : String → String) (file : Option String) (p : ApprovedPayload) (a b : Agent S)
      (host : HostMeasured)
      → str_eq p.token "" ≡ false
      → handle_message client network dial utf8 error_text true (message (approved p)) a ≡ done b
      → let started = load_config env file in
        let restarted = load_config env b.token_file in
        let again = new_agent started b.docker b.token_file in
        let anew = new_agent restarted b.docker b.token_file in
        (b.token ≡ p.token)
        × RegistersWith restarted.agent_name p.token host anew
            (connect true true restarted host anew)
        × RegistersWith started.agent_name started.token host again
            (connect true true started host again)
  unfolding handle_message load_config new_agent connect registration
  approved-RegistersWith env file p a b host named h =
      let same = done-injective (record a { token = p.token; token_file = some p.token }) b h in
      let file_written : b.token_file ≡ some p.token = ap (λ x. x.token_file) (sym same) in
      (ap (λ x. x.token) (sym same), rw (file_written, named) refl, refl)
