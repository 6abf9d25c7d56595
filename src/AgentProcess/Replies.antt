-- ===== src/AgentProcess/Replies.antt =====
-- The replies of the command handlers (agent/agent.go handleStartServer, handleStopServer,
-- handleDeleteServer, handleRcon).
use game_server_manager.Base.{
  ◌+◌, ◌^◌, ◌<◌, ◌≡◌, refl, ap, ◌≢◌, Bool, false, Option, none, some, [], ◌∷◌, ◌++◌, String, length,
}
use game_server_manager.Protocol.{
  message, Message, start_server, stop_server, delete_server, rcon_command, server_status,
  rcon_response, StartServerPayload, StopServerPayload, DeleteServerPayload, RconCommandPayload,
  ServerStatusPayload, RconResponsePayload,
}
use game_server_manager.Hub.{Effect, done}
use game_server_manager.Rcon.{Bytes}
use game_server_manager.Rcon.Session.{
  Peer, RconError, Outcome, returned, failed, panicked, send_rcon_command-ne-panicked,
}
use game_server_manager.Docker.{Client, Result, ok, err, start_container, stop_container}
use game_server_manager.AgentProcess.Sending.{send_message_room}
use game_server_manager.AgentProcess.{
  Agent, send_message, handle_message, handle_start_server, handle_stop_server,
  handle_delete_server, handle_rcon, rcon_ended, start_reply, stop_reply,
}

-- A command of the master, and a message of the agent that answers it.
pub data Answers : Message → Message → Type 0 where
  start_answer :
      (p : StartServerPayload) (q : ServerStatusPayload)
      → q.server_id ≡ p.server_id
      → Answers (start_server p) (server_status q)
  stop_answer :
      (p : StopServerPayload) (q : ServerStatusPayload)
      → q.server_id ≡ p.server_id
      → Answers (stop_server p) (server_status q)
  delete_answer :
      (p : DeleteServerPayload) (q : ServerStatusPayload)
      → q.server_id ≡ p.server_id
      → Answers (delete_server p) (server_status q)
  rcon_answer :
      (p : RconCommandPayload) (q : RconResponsePayload)
      → q.server_id ≡ p.server_id
      → q.message_id ≡ p.message_id
      → Answers (rcon_command p) (rcon_response q)

-- The four commands; the texts of an RCON command fit into a packet.
pub data IsCommand (utf8 : String → Bytes) : Message → Type 0 where
  starts : (p : StartServerPayload) → IsCommand utf8 (start_server p)
  stops : (p : StopServerPayload) → IsCommand utf8 (stop_server p)
  deletes : (p : DeleteServerPayload) → IsCommand utf8 (delete_server p)
  asks :
      (p : RconCommandPayload)
      → length (utf8 p.rcon_password) + 14 < 2 ^ 31
      → length (utf8 p.command) + 14 < 2 ^ 31
      → IsCommand utf8 (rcon_command p)

-- The agent handled the command: it goes on, and has queued one answer.
pub record IsAnswered {S : Type 0} (m : Message) (a : Agent S) (r : Effect (Agent S)) : Type 0 where
  pub reply : Message
  pub after : Agent S
  pub goes_on : r ≡ done after
  pub queued : after.send ≡ a.send ++ message reply ∷ []
  pub answers : Answers m reply

module _ {S : Type 0} (client : Client S) (network : String) (dial : String → Option Peer)
    (utf8 : String → Bytes) (error_text : RconError → String) where
  start_reply-Answers :
      (p : StartServerPayload) (r : Result String)
      → Answers (start_server p) (start_reply client network dial utf8 error_text p.server_id r)
  start_reply-Answers p (ok container_id) = start_answer p _ refl
  start_reply-Answers p (err e) = start_answer p _ refl

  stop_reply-Answers :
      (p : StopServerPayload) (r : Option String)
      → Answers (stop_server p) (stop_reply client network dial utf8 error_text p.server_id r)
  stop_reply-Answers p none = stop_answer p _ refl
  stop_reply-Answers p (some e) = stop_answer p _ refl

  module _ (a : Agent S) (on : a.stopped ≡ false) (room : length a.send < 256) where
    queued-IsAnswered :
        (m reply : Message) (docker : S)
        → Answers m reply
        → IsAnswered m a (done (send_message reply (record a { docker = docker })))
    queued-IsAnswered m reply docker answers = record {
      reply = reply;
      after = send_message reply (record a { docker = docker });
      goes_on = refl;
      queued = ap (λ b. b.send) (send_message_room reply (record a { docker = docker }) on room);
      answers = answers;
    }

    rcon_ended-IsAnswered :
        (p : RconCommandPayload) (o : Outcome)
        → o ≢ panicked
        → IsAnswered (rcon_command p) a (rcon_ended client network dial utf8 error_text p o a)
    rcon_ended-IsAnswered p (returned response) h =
        queued-IsAnswered (rcon_command p) _ a.docker (rcon_answer p _ refl refl)
    rcon_ended-IsAnswered p (failed e) h =
        queued-IsAnswered (rcon_command p) _ a.docker (rcon_answer p _ refl refl)
    rcon_ended-IsAnswered p panicked h = absurd (h refl)

    -- An agent that is not stopped, with room in its channel, answers each start, stop and delete
    -- command, and each RCON command whose texts an int32 size can count: whatever Docker and the
    -- game server do, handling ends and queues one message, which names the command's server, and
    -- for RCON its message id.
    pub handle_message-IsAnswered :
        (written : Bool) (m : Message)
        → IsCommand utf8 m
        → IsAnswered m a (handle_message client network dial utf8 error_text written (message m) a)
    unfolding handle_message handle_start_server handle_stop_server handle_delete_server handle_rcon
    handle_message-IsAnswered written _ (starts p) =
        queued-IsAnswered (start_server p) _ _
          (start_reply-Answers p (start_container client network p a.docker).1)
    handle_message-IsAnswered written _ (stops p) =
        queued-IsAnswered (stop_server p) _ _
          (stop_reply-Answers p (stop_container client p.container_name a.docker).1)
    handle_message-IsAnswered written _ (deletes p) =
        queued-IsAnswered (delete_server p) _ _ (delete_answer p _ refl)
    handle_message-IsAnswered written _ (asks p short_password short_command) =
        rcon_ended-IsAnswered p _ (
          send_rcon_command-ne-panicked dial p.rcon_host p.rcon_port (utf8 p.rcon_password)
            (utf8 p.command) short_password short_command)
