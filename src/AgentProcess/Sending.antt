-- ===== src/AgentProcess/Sending.antt =====
-- sendMessage (agent/agent.go) of an agent that is not stopped.
use game_server_manager.Base.{
  ◌≤◌, ◌<◌, ◌≡◌, ap, ◌∙◌, Bool, true, false, [], ◌∷◌, ◌++◌, arith, if◌then◌else◌, ltb, length,
}
use game_server_manager.Protocol.{message, Message}
use game_server_manager.AgentProcess.{Agent, send_message}

module _ {S : Type 0} (m : Message) (a : Agent S) (running : a.stopped ≡ false) where
  abbrev tested : Bool → Bool → Agent S
  tested stopped room =
      if stopped then a else if room then record a { send = a.send ++ message m ∷ [] } else a

  send_message_lem :
      (room : Bool) → ltb (length a.send) 256 ≡ room → send_message m a ≡ tested false room
  unfolding send_message
  send_message_lem room e =
      ap (λ b. tested b (ltb (length a.send) 256)) running ∙ ap (tested false) e

  pub send_message_room :
      length a.send < 256 → send_message m a ≡ record a { send = a.send ++ message m ∷ [] }
  send_message_room room = send_message_lem true (ground arith)

  pub send_message_full : 256 ≤ length a.send → send_message m a ≡ a
  send_message_full full = send_message_lem false (ground arith)
