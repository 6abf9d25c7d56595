-- ===== src/Protocol.antt =====
-- agent/protocol.go and master/protocol.go: the messages between master, agents and browsers. The two
-- files declare the same payloads. A Go int is an integer, a float64 the number that is its bit
-- pattern, a uint64 a number. Text is a String, and the list of its bytes where it comes from a raw
-- stream: a log line, an RCON response.
pub mod Json
pub mod Wire
pub mod Reports
pub mod Envelope
pub mod RoundTrip
mod Tests
use game_server_manager.Base.{ℕ, List, String}
use game_server_manager.Base.Int.{ℤ}

pub record HostInfo : Type 0 where
  pub os : String
  pub cpu_cores : ℤ
  pub memory_gb : ℤ
  pub disk_gb : ℤ

pub record RegisterPayload : Type 0 where
  pub agent_name : String
  pub token : String
  pub host_info : HostInfo

pub record HeartbeatPayload : Type 0 where
  pub agent_name : String

pub record ApprovedPayload : Type 0 where
  pub token : String

pub record PortMapping : Type 0 where
  pub label : String
  pub container_port : ℤ
  pub protocol : String
  pub host_port_offset : ℤ

pub record StartServerPayload : Type 0 where
  pub server_id : ℤ
  pub container_name : String
  pub image : String
  pub port : ℤ
  pub max_players : ℤ
  pub env : List (String × String)
  pub port_mappings : List PortMapping
  pub data_path : String

pub record StopServerPayload : Type 0 where
  pub server_id : ℤ
  pub container_name : String

pub record DeleteServerPayload : Type 0 where
  pub server_id : ℤ
  pub container_name : String
  pub volume_name : String

pub record ServerStatusPayload : Type 0 where
  pub server_id : ℤ
  pub status : String
  pub container_id : String
  pub error : String

pub record RconCommandPayload : Type 0 where
  pub server_id : ℤ
  pub message_id : String
  pub command : String
  pub rcon_host : String
  pub rcon_port : ℤ
  pub rcon_password : String

pub record RconResponsePayload : Type 0 where
  pub server_id : ℤ
  pub message_id : String
  pub response : List ℕ
  pub error : String

pub record StreamLogsPayload : Type 0 where
  pub server_id : ℤ
  pub container_name : String

pub record LogLinePayload : Type 0 where
  pub server_id : ℤ
  pub line : List ℕ
  pub time : String

pub record ContainerMetrics : Type 0 where
  pub container_name : String
  pub cpu_percent : ℕ
  pub mem_used_mb : ℕ
  pub mem_limit_mb : ℕ

pub record MetricsPayload : Type 0 where
  pub agent_name : String
  pub cpu_percent : ℕ
  pub mem_used_mb : ℕ
  pub mem_total_mb : ℕ
  pub disk_used_gb : ℕ
  pub disk_total_gb : ℕ
  pub containers : List ContainerMetrics
  pub timestamp : String

-- master/protocol.go only: which environment variables a game reads.
pub record GameFieldMappings : Type 0 where
  pub env_max_players : String
  pub env_password : String
  pub env_rcon_password : String
  pub rcon_port : ℤ
  pub port_derived_vars : List (String × ℤ)

-- An Envelope whose payload decodes, by its type.
pub data Message : Type 0 where
  start_server : StartServerPayload → Message
  stop_server : StopServerPayload → Message
  delete_server : DeleteServerPayload → Message
  rcon_command : RconCommandPayload → Message
  stream_logs_start stream_logs_stop : StreamLogsPayload → Message
  register : RegisterPayload → Message
  heartbeat : HeartbeatPayload → Message
  server_status : ServerStatusPayload → Message
  log_line : LogLinePayload → Message
  rcon_response : RconResponsePayload → Message
  approved : ApprovedPayload → Message
  metrics : MetricsPayload → Message
  request_metrics : Message

-- What a text frame holds for its reader: such a message; an Envelope of a known type whose payload
-- does not decode, or of a type that no reader knows; or bytes that are no Envelope.
pub data Frame : Type 0 where
  message : Message → Frame
  bad_payload : (type : String) → Frame
  unknown_type : (type : String) → Frame
  not_envelope : Frame
