-- ===== src/Protocol/Envelope.antt =====
-- Envelopes: the type of a message with its payload, written by json.Marshal, and read by
-- json.Unmarshal into an interface{}, which is written again and read into the payload's struct
-- (agent/agent.go reader and handleMessage; master/websocket.go handleAgentWS and agentReader).
use game_server_manager.Base.{
  Bool, true, ◌&&◌, Option, none, some, List, [], ◌∷◌, String, if◌then◌else◌, str_eq,
}
use game_server_manager.Protocol.{
  Message, ContainerMetrics, start_server, stop_server, delete_server, rcon_command,
  stream_logs_start, stream_logs_stop, register, heartbeat, server_status, log_line, rcon_response,
  approved, metrics, request_metrics, Frame, message, bad_payload, unknown_type, not_envelope,
}
use game_server_manager.Protocol.Json.{
  Coding, Json, text, null, object, no_fields, field, opt_text, get, through, and_then, text_of,
  object_of,
}
use game_server_manager.Protocol.Wire.{
  write_approved, read_approved, write_start_server, read_start_server, write_stop_server,
  read_stop_server, write_delete_server, read_delete_server, write_rcon_command, read_rcon_command,
  write_stream_logs, read_stream_logs,
}
use game_server_manager.Protocol.Reports.{
  write_register, read_register, write_heartbeat, read_heartbeat, write_server_status,
  read_server_status, write_rcon_response, read_rcon_response, write_log_line, read_log_line,
  write_metrics, read_metrics,
}

-- The constants Msg… of MessageType
unfoldable pub message_type : Message → String
message_type (start_server _) = "start_server"
message_type (stop_server _) = "stop_server"
message_type (delete_server _) = "delete_server"
message_type (rcon_command _) = "rcon_command"
message_type (stream_logs_start _) = "stream_logs_start"
message_type (stream_logs_stop _) = "stream_logs_stop"
message_type (approved _) = "approved"
message_type (register _) = "register"
message_type (heartbeat _) = "heartbeat"
message_type (server_status _) = "server_status"
message_type (log_line _) = "log_line"
message_type (rcon_response _) = "rcon_response"
message_type (metrics _) = "metrics"
message_type request_metrics = "request_metrics"

unfoldable pub write_payload : Coding → Message → Json
write_payload c (start_server p) = object (write_start_server p)
write_payload c (stop_server p) = object (write_stop_server p)
write_payload c (delete_server p) = object (write_delete_server p)
write_payload c (rcon_command p) = object (write_rcon_command p)
write_payload c (stream_logs_start p) = object (write_stream_logs p)
write_payload c (stream_logs_stop p) = object (write_stream_logs p)
write_payload c (approved p) = object (write_approved p)
write_payload c (register p) = object (write_register p)
write_payload c (heartbeat p) = object (write_heartbeat p)
write_payload c (server_status p) = object (write_server_status c p)
write_payload c (log_line p) = object (write_log_line c p)
write_payload c (rcon_response p) = object (write_rcon_response c p)
write_payload c (metrics p) = object (write_metrics p)
write_payload c request_metrics = null

-- MessageID, which only sendRcon sets, to the payload's own
abbrev pub message_id : Message → String
message_id (rcon_command p) = p.message_id
message_id _ = ""

-- json.Marshal refuses a number that is not finite.
abbrev all_finite : Coding → List ContainerMetrics → Bool
all_finite c [] = true
all_finite c (x ∷ xs) = c.finite x.cpu_percent && all_finite c xs

abbrev pub marshals : Coding → Message → Bool
marshals c (metrics p) = c.finite p.cpu_percent && all_finite c p.containers
marshals c _ = true

abbrev pub envelope : Coding → Message → Json
envelope c m = object (
    field "type" (text (message_type m))
      (opt_text "message_id" (message_id m) (field "payload" (write_payload c m) no_fields)))

-- json.Marshal(Envelope{…})
unfoldable pub write_message : Coding → Message → Option Json
write_message c m = if marshals c m then some (envelope c m) else none

abbrev pub made : {A : Type 0} → (type : String) → (A → Message) → Option A → Frame
made type build none = bad_payload type
made type build (some p) = message (build p)

-- The switch of handleMessage on the agent
unfoldable pub agent_payload : (type : String) → Json → Frame
agent_payload t v =
    let fs = object_of (some v) in
    if str_eq t "start_server"
    then made t start_server (and_then fs read_start_server)
    else if str_eq t "stop_server"
    then made t stop_server (and_then fs read_stop_server)
    else if str_eq t "delete_server"
    then made t delete_server (and_then fs read_delete_server)
    else if str_eq t "rcon_command"
    then made t rcon_command (and_then fs read_rcon_command)
    else if str_eq t "stream_logs_start"
    then made t stream_logs_start (and_then fs read_stream_logs)
    else if str_eq t "stream_logs_stop"
    then made t stream_logs_stop (and_then fs read_stream_logs)
    else if str_eq t "approved"
    then made t approved (and_then fs read_approved)
    else if str_eq t "request_metrics"
    then message request_metrics
    else unknown_type t

-- What the payload structs of master/protocol.go hold for the types that agents send. Of these
-- handleAgentWS reads register, and agentReader server_status and metrics; it takes a heartbeat
-- without its payload, and relays the others to the browsers.
unfoldable pub master_payload : Coding → (type : String) → Json → Frame
master_payload c t v =
    let fs = object_of (some v) in
    if str_eq t "register"
    then made t register (and_then fs read_register)
    else if str_eq t "heartbeat"
    then made t heartbeat (and_then fs read_heartbeat)
    else if str_eq t "server_status"
    then made t server_status (and_then fs (read_server_status c))
    else if str_eq t "log_line"
    then made t log_line (and_then fs (read_log_line c))
    else if str_eq t "rcon_response"
    then made t rcon_response (and_then fs (read_rcon_response c))
    else if str_eq t "metrics"
    then made t metrics (and_then fs read_metrics)
    else unknown_type t

abbrev pub or_null : Option Json → Json
or_null none = null
or_null (some v) = v

abbrev pub typed : (String → Json → Frame) → Json → Option String → (id : Option String) → Frame
typed payload v none id = not_envelope
typed payload v (some t) none = not_envelope
typed payload v (some t) (some id) = payload t v

-- json.Unmarshal(message, &env), and env.Payload written again
unfoldable pub read_frame : Coding → (String → Json → Frame) → Json → Frame
read_frame c payload (object fs) =
    typed payload (through c.round (or_null (get "payload" fs))) (text_of (get "type" fs))
      (text_of (get "message_id" fs))
read_frame c payload null = payload "" null
read_frame c payload _ = not_envelope

-- The reading by the structs of the program that a message is for
unfoldable pub receiver : Coding → Message → Json → Frame
unfolding read_frame agent_payload master_payload
receiver c (start_server _) = read_frame c agent_payload
receiver c (stop_server _) = read_frame c agent_payload
receiver c (delete_server _) = read_frame c agent_payload
receiver c (rcon_command _) = read_frame c agent_payload
receiver c (stream_logs_start _) = read_frame c agent_payload
receiver c (stream_logs_stop _) = read_frame c agent_payload
receiver c (approved _) = read_frame c agent_payload
receiver c (register _) = read_frame c (master_payload c)
receiver c (heartbeat _) = read_frame c (master_payload c)
receiver c (server_status _) = read_frame c (master_payload c)
receiver c (log_line _) = read_frame c (master_payload c)
receiver c (rcon_response _) = read_frame c (master_payload c)
receiver c (metrics _) = read_frame c (master_payload c)
receiver c request_metrics = read_frame c agent_payload
