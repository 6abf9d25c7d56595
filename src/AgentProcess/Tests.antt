-- ===== src/AgentProcess/Tests.antt =====
-- An agent at work, over a Docker daemon in which every call succeeds; its state is the list of the
-- names of its containers, which are their ids too.
use game_server_manager.Base.{
  refl, true, false, not, none, some, All, List, [], ◌∷◌, String, arith, keep, str_eq,
}
use game_server_manager.Base.Int.{pos}
use game_server_manager.Protocol.{message, start_server, StartServerPayload}
use game_server_manager.Docker.{Client, ok}
use game_server_manager.AgentProcess.{Agent, handle_message}
use game_server_manager.AgentProcess.Metrics.{
  Float64, MemStat, StatsJson, Container, Measured, collect_metrics,
}
use game_server_manager.AgentProcess.MetricsBounds.{WithinLimit, collect_metrics-WithinLimit}
use game_server_manager.AgentProcess.Lifecycle.{Config, HostMeasured}
use game_server_manager.AgentProcess.Replies.{IsAnswered, starts, handle_message-IsAnswered}

abbrev pub daemon : Client (List String)
daemon = record {
  volume_create = λ name s. (s, none);
  volume_remove = λ name force s. (s, none);
  image_pull = λ image s. (s, none);
  container_list = λ all name s. ok (keep (str_eq name) s);
  container_stop = λ id s. (s, none);
  container_remove = λ id force s. (keep (λ c. not (str_eq c id)) s, none);
  container_create = λ config name s. (name ∷ s, ok name);
  container_start = λ id s. (s, none);
  container_logs =
      λ id s. ok (1 ∷ 2 ∷ 13 ∷ 10 ∷ 1 ∷ 0 ∷ 0 ∷ 0 ∷ 0 ∷ 0 ∷ 0 ∷ 2 ∷ 72 ∷ 105 ∷ [], none);
}

abbrev pub idle : Agent (List String)
idle = record {
  docker = "lanmaster-match" ∷ [];
  streams = record { live = []; cancelled = []; next = 0 };
  send = [];
  stopped = false;
  token = "t";
  token_file = none;
}

abbrev game : StartServerPayload
game = record {
  server_id = pos 1;
  container_name = "lanmaster-match";
  image = "cs2";
  port = pos 27015;
  max_players = pos 10;
  env = [];
  port_mappings = [];
  data_path = "";
}

handle_message-IsAnswered_example : IsAnswered (start_server game) idle (
    handle_message daemon "bridge"
      (λ addr. none)
      (λ text. [])
      (λ e. "rcon")
      true
      (message (start_server game))
      idle)
handle_message-IsAnswered_example =
    handle_message-IsAnswered daemon "bridge" (λ addr. none) (λ text. []) (λ e. "rcon") idle refl
      (omega arith) true (start_server game) (starts game)

abbrev pub lan_config : Config
lan_config = record { master_url = ""; agent_name = "lan"; token = "t" }

-- Arithmetic that is never looked at.
abbrev pub no_floats : Float64
no_floats = record {
  of_uint64 = λ n. n;
  minus = λ a b. 0;
  over = λ a b. 0;
  times = λ a b. 0;
  positive = λ a. false;
  zero = 0;
  hundred = 100;
}

abbrev stats : StatsJson
stats = record {
  cpu_total_usage = 5;
  cpu_system_usage = 9;
  pre_cpu_total_usage = 1;
  pre_cpu_system_usage = 2;
  percpu_usage = [];
  online_cpus = 4;
  memory_usage = 300000000;
  memory_limit = 1000000000;
  memory_stats = ("cache", 900000000) ∷ ("inactive_file", 100000000) ∷ [];
}

abbrev match_container : Container
match_container = record { names = "/lanmaster-match" ∷ []; stats = some stats }

abbrev host_memory : MemStat
host_memory = record { total = 8000000000; available = 3000000000 }

abbrev measured : Measured
measured = record {
  timestamp = "t";
  cpu_percents = none;
  memory = some host_memory;
  disk = λ path. none;
  containers = some (match_container ∷ []);
  num_cpu = 8;
}

abbrev pub reads_host : HostMeasured
reads_host = record {
  os = "linux";
  num_cpu = 8;
  memory = some host_memory;
  disk = λ path. none;
  host_proc = "";
}

collect_metrics-WithinLimit_example :
    All WithinLimit (collect_metrics no_floats "lan" measured).containers
collect_metrics-WithinLimit_example =
    collect_metrics-WithinLimit no_floats "lan" measured (match_container ∷ []) refl
      ((omega arith, omega arith), tt)
