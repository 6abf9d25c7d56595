-- ===== src/AgentProcess/Lifecycle.antt =====
-- The life of an agent process: its start, connecting, the loops beside the reader, and
-- reconnecting (agent/main.go main and getEnv; agent/agent.go NewAgent, Stop, Connect, register,
-- writer, heartbeat, metricsLoop, getHostInfo).
use game_server_manager.Base.{
  ℕ, Bool, true, false, Option, none, some, [], String, if◌then◌else◌, str_eq,
}
use game_server_manager.Base.Int.{ℤ, pos}
use game_server_manager.Protocol.{Frame, message, register, heartbeat, HostInfo, RegisterPayload}
use game_server_manager.Docker.Streams.{Streams}
use game_server_manager.AgentProcess.{Agent, send_message}
use game_server_manager.AgentProcess.Metrics.{
  Float64, Measured, MemStat, DiskStat, gibibytes, collect_and_send_metrics,
}

pub record Config : Type 0 where
  pub master_url : String
  pub agent_name : String
  pub token : String

-- os.Getenv gives an empty text for a variable that is not set.
abbrev pub get_env : (String → String) → (key fallback : String) → String
get_env env key fallback = if str_eq (env key) "" then fallback else env key

-- The token of the file, if that can be read and is not empty.
abbrev pub saved_token : Option String → String → String
saved_token none token = token
saved_token (some saved) token = if str_eq saved "" then token else saved

-- What main makes of the environment and of the token file, once.
unfoldable pub load_config : (env : String → String) → (token_file : Option String) → Config
load_config env token_file = record {
  master_url = get_env env "MASTER_URL" "ws://localhost:8080/ws/agent";
  agent_name = get_env env "AGENT_NAME" "default-agent";
  token = saved_token token_file (get_env env "AGENT_TOKEN" "");
}

abbrev no_streams : Streams
no_streams = record { live = []; cancelled = []; next = 0 }

-- NewAgent, of the Config that main holds. The daemon and the token file are not the agent's own.
unfoldable pub new_agent : {S : Type 0} → Config → (docker : S) → Option String → Agent S
new_agent cfg docker token_file = record {
  docker = docker;
  streams = no_streams;
  send = [];
  stopped = false;
  token = cfg.token;
  token_file = token_file;
}

-- What runtime and gopsutil tell of the host; `none` is an error.
pub record HostMeasured : Type 0 where
  pub os : String
  pub num_cpu : ℕ
  pub memory : Option MemStat
  pub disk : String → Option DiskStat
  pub host_proc : String

abbrev pub memory_gb : Option MemStat → ℤ
memory_gb none = pos 0
memory_gb (some stat) = pos (gibibytes stat.total)

abbrev pub disk_gb : Option DiskStat → ℤ
disk_gb none = pos 0
disk_gb (some stat) = pos (gibibytes stat.total)

-- getHostInfo
unfoldable pub get_host_info : HostMeasured → HostInfo
get_host_info m = record {
  os = m.os;
  cpu_cores = pos m.num_cpu;
  memory_gb = memory_gb m.memory;
  disk_gb = disk_gb (m.disk (if str_eq m.host_proc "" then "/" else "/host"));
}

-- register: the message that it writes
unfoldable pub registration : {S : Type 0} → Config → HostMeasured → Agent S → RegisterPayload
registration cfg m a = record {
  agent_name = cfg.agent_name;
  token = a.token;
  host_info = get_host_info m;
}

pub data Connected (S : Type 0) : Type 0 where
  no_dial no_register : Connected S
  session : (first : Frame) → Agent S → Connected S

-- Connect, up to the start of the goroutines; `dialled` and `wrote` say whether dialling and writing
-- the registration succeed.
unfoldable pub connect :
    {S : Type 0} → (dialled wrote : Bool) → Config → HostMeasured → Agent S → Connected S
connect dialled wrote cfg m a =
    if dialled
    then (if wrote then session (message (register (registration cfg m a))) a else no_register)
    else no_dial

unfoldable pub stop : {S : Type 0} → Agent S → Agent S
stop a = record a { stopped = true }

-- What a goroutine of the agent does at one turn: it goes on or it returns.
pub data Turn (S : Type 0) : Type 0 where
  goes_on returns : Agent S → Turn S

-- A tick of heartbeat, and one of metricsLoop; a Stop between its test and its message, which the
-- program allows, is left out
unfoldable pub heartbeat_tick : {S : Type 0} → Config → Agent S → Turn S
heartbeat_tick cfg a =
    if a.stopped
    then returns a
    else goes_on (send_message (heartbeat (record { agent_name = cfg.agent_name })) a)

unfoldable pub metrics_tick : {S : Type 0} → Float64 → Config → Measured → Agent S → Turn S
metrics_tick f cfg m a =
    if a.stopped then returns a else goes_on (collect_and_send_metrics f cfg.agent_name m a)
