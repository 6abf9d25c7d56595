-- ===== src/AgentProcess.antt =====
-- agent/agent.go: what an agent does with the messages of the master. Each message is handled by a
-- goroutine of its own; here a handler runs alone, to its end. The Docker client, the RCON dialler,
-- the bytes of a text and the texts of the RCON errors are parameters.
pub mod Sending
pub mod Replies
pub mod Metrics
pub mod MetricsBounds
pub mod Lifecycle
pub mod Reconnect
pub mod Steps
pub mod Unstopped
pub mod Scanner
pub mod LogStreams
pub mod MainLoop
pub mod Writing
mod Tests
mod LoopTests
use game_server_manager.Base.{
  ℕ, Bool, true, false, Option, none, some, List, [], ◌∷◌, ◌++◌, String, if◌then◌else◌, ltb, leb,
  length, drop,
}
use game_server_manager.Base.Int.{ℤ}
use game_server_manager.Protocol.{
  Frame, message, bad_payload, unknown_type, not_envelope, Message, start_server, stop_server,
  delete_server, rcon_command, stream_logs_start, stream_logs_stop, approved, server_status,
  rcon_response, log_line, StartServerPayload, StopServerPayload, DeleteServerPayload,
  RconCommandPayload,
}
use game_server_manager.Hub.{Effect, done, blocks, panics}
use game_server_manager.Rcon.{Bytes}
use game_server_manager.Rcon.Session.{
  Peer, RconError, Outcome, returned, failed, panicked, send_rcon_command,
}
use game_server_manager.Docker.{
  Client, Result, ok, err, start_container, stop_container, delete_container,
}
use game_server_manager.Docker.Streams.{Streams, stream_opens, stop_log_stream}

pub record Agent (S : Type 0) : Type 0 where
  pub docker : S
  pub streams : Streams
  pub send : List Frame
  pub stopped : Bool
  pub token : String
  pub token_file : Option String

-- sendMessage: a message is dropped once the agent is stopped, or if the channel of 256 is full. The
-- test and the send are one step here; in the program a Stop may come between them.
unfoldable pub send_message : {S : Type 0} → Message → Agent S → Agent S
send_message m a =
    if a.stopped
    then a
    else if ltb (length a.send) 256
    then record a { send = a.send ++ message m ∷ [] }
    else a

abbrev pub status_message : ℤ → (status container_id error : String) → Message
status_message id status container_id error =
    server_status
      (record { server_id = id; status = status; container_id = container_id; error = error })

-- line[8:], the stream header of Docker's log format, if the line is longer than that
abbrev pub without_header : Bytes → Bytes
without_header line = if ltb 8 (length line) then drop 8 line else line

-- One line of a log stream, in the callback of handleStreamLogs.
unfoldable pub on_log_line : {S : Type 0} → ℤ → Bytes → (time : String) → Agent S → Agent S
on_log_line id line time a =
    send_message (log_line (record { server_id = id; line = without_header line; time = time })) a

module _ {S : Type 0} (client : Client S) (network : String) (dial : String → Option Peer)
    (utf8 : String → Bytes) (error_text : RconError → String) where
  abbrev start_reply : ℤ → Result String → Message
  start_reply id (ok container_id) = status_message id "running" container_id ""
  start_reply id (err e) = status_message id "error" "" e

  unfoldable pub handle_start_server : StartServerPayload → Agent S → Agent S
  handle_start_server p a =
      let (docker, result) = start_container client network p a.docker in
      send_message (start_reply p.server_id result) (record a { docker = docker })

  abbrev stop_reply : ℤ → Option String → Message
  stop_reply id none = status_message id "stopped" "" ""
  stop_reply id (some e) = status_message id "error" "" e

  unfoldable pub handle_stop_server : StopServerPayload → Agent S → Agent S
  handle_stop_server p a =
      let (docker, result) = stop_container client p.container_name a.docker in
      send_message (stop_reply p.server_id result) (record a { docker = docker })

  unfoldable pub handle_delete_server : DeleteServerPayload → Agent S → Agent S
  handle_delete_server p a =
      send_message (status_message p.server_id "deleted" "" "")
        (record a { docker = delete_container client p.container_name p.volume_name a.docker })

  abbrev rcon_reply : RconCommandPayload → Bytes → String → Message
  rcon_reply p response error = rcon_response (record {
    server_id = p.server_id;
    message_id = p.message_id;
    response = response;
    error = error;
  })

  abbrev rcon_ended : RconCommandPayload → Outcome → Agent S → Effect (Agent S)
  rcon_ended p (returned response) a = done (send_message (rcon_reply p response "") a)
  rcon_ended p (failed e) a = done (send_message (rcon_reply p [] (error_text e)) a)
  rcon_ended p panicked a = panics

  unfoldable pub handle_rcon : RconCommandPayload → Agent S → Effect (Agent S)
  handle_rcon p a =
      rcon_ended p
        (send_rcon_command dial p.rcon_host p.rcon_port (utf8 p.rcon_password)
          (utf8 p.command)).outcome
        a

  -- handleMessage. A log stream and a measurement go on in goroutines of their own: of the first only
  -- its registration happens here, of the second nothing. `written` says whether the token file could
  -- be written, an error that is ignored.
  unfoldable pub handle_message : (written : Bool) → Frame → Agent S → Effect (Agent S)
  handle_message written (message (start_server p)) a = done (handle_start_server p a)
  handle_message written (message (stop_server p)) a = done (handle_stop_server p a)
  handle_message written (message (delete_server p)) a = done (handle_delete_server p a)
  handle_message written (message (rcon_command p)) a = handle_rcon p a
  handle_message written (message (stream_logs_start p)) a =
      done (record a { streams = (stream_opens p.server_id a.streams).0 })
  handle_message written (message (stream_logs_stop p)) a =
      done (record a { streams = stop_log_stream p.server_id a.streams })
  handle_message written (message (approved p)) a =
      done
        (record a { token = p.token; token_file = if written then some p.token else a.token_file })
  handle_message written _ a = done a
