-- ===== src/AgentProcess/Metrics.antt =====
-- agent/metrics.go: what an agent measures. The measurements of gopsutil and of the Docker client are
-- data from outside, and the operations on float64, whose values stand by their bits, a parameter.
-- The logging and the recovery from a panic of a third-party call are left out.
use Prim.Native.Char.{code}
use Prim.Native.String.{String, [], ◌∷◌}
use game_server_manager.Base.{
  ℕ, ◌+◌, ◌-◌, ◌/◌, ◌%◌, ◌^◌, Bool, false, ◌&&◌, Option, none, some, List, if◌then◌else◌, ltb,
  nat_eq, length, lookup, string_key,
}
use game_server_manager.Protocol.{ContainerMetrics, MetricsPayload, metrics}
use game_server_manager.AgentProcess.{Agent, send_message}

pub record Float64 : Type 0 where
  pub of_uint64 : ℕ → ℕ
  pub minus : ℕ → ℕ → ℕ
  pub over : ℕ → ℕ → ℕ
  pub times : ℕ → ℕ → ℕ
  pub positive : ℕ → Bool
  pub zero : ℕ
  pub hundred : ℕ

-- a - b of uint64
abbrev pub sub_uint64 : ℕ → ℕ → ℕ
sub_uint64 a b = (a + (2 ^ 64 - b)) % 2 ^ 64

abbrev pub mebibytes : ℕ → ℕ
mebibytes n = n / 1024 / 1024

abbrev pub gibibytes : ℕ → ℕ
gibibytes n = n / 1024 / 1024 / 1024

-- mem.VirtualMemoryStat and disk.UsageStat, in bytes
pub record MemStat : Type 0 where
  pub total : ℕ
  pub available : ℕ

pub record DiskStat : Type 0 where
  pub total : ℕ
  pub used : ℕ

-- types.StatsJSON
pub record StatsJson : Type 0 where
  pub cpu_total_usage : ℕ
  pub cpu_system_usage : ℕ
  pub pre_cpu_total_usage : ℕ
  pub pre_cpu_system_usage : ℕ
  pub percpu_usage : List ℕ
  pub online_cpus : ℕ
  pub memory_usage : ℕ
  pub memory_limit : ℕ
  pub memory_stats : List (String × ℕ)

-- A container that ContainerList gives; its stats are missing if they cannot be read or decoded.
pub record Container : Type 0 where
  pub names : List String
  pub stats : Option StatsJson

-- The measurements; `none` is an error.
pub record Measured : Type 0 where
  pub timestamp : String
  pub cpu_percents : Option (List ℕ)
  pub memory : Option MemStat
  pub disk : String → Option DiskStat
  pub containers : Option (List Container)
  pub num_cpu : ℕ

-- name[1:], if the name begins with a slash
abbrev pub without_slash : String → String
without_slash [] = []
without_slash (c ∷ name) = if nat_eq (code c) b'/' then name else c ∷ name

abbrev pub first_name : List String → String
first_name List.[] = ""
first_name (List.◌∷◌ name _) = without_slash name

-- `if part, ok := s.MemoryStats.Stats[key]; ok && memUsed > part`
abbrev pub smaller_part : Option ℕ → ℕ → Bool
smaller_part none usage = false
smaller_part (some part) usage = ltb part usage

abbrev pub less_part : Option ℕ → ℕ → ℕ
less_part none usage = usage
less_part (some part) usage = sub_uint64 usage part

abbrev pub mem_used : StatsJson → ℕ
mem_used s =
    let inactive_file = lookup "inactive_file" s.memory_stats in
    let cache = lookup "cache" s.memory_stats in
    if smaller_part inactive_file s.memory_usage
    then less_part inactive_file s.memory_usage
    else if smaller_part cache s.memory_usage
    then less_part cache s.memory_usage
    else s.memory_usage

abbrev pub or_if_zero : ℕ → ℕ → ℕ
or_if_zero n m = if nat_eq n 0 then m else n

abbrev pub num_cpus : ℕ → StatsJson → ℕ
num_cpus num_cpu s = or_if_zero (or_if_zero (length s.percpu_usage) s.online_cpus) num_cpu

abbrev pub used_mb : Option MemStat → ℕ
used_mb none = 0
used_mb (some stat) = mebibytes (sub_uint64 stat.total stat.available)

abbrev pub total_mb : Option MemStat → ℕ
total_mb none = 0
total_mb (some stat) = mebibytes stat.total

abbrev pub first_disk : Option DiskStat → Option DiskStat → Option DiskStat
first_disk none root = root
first_disk (some stat) root = some stat

abbrev pub disk_used_gb : Option DiskStat → ℕ
disk_used_gb none = 0
disk_used_gb (some stat) = gibibytes stat.used

abbrev pub disk_total_gb : Option DiskStat → ℕ
disk_total_gb none = 0
disk_total_gb (some stat) = gibibytes stat.total

module _ (f : Float64) where
  abbrev pub first_percent : Option (List ℕ) → ℕ
  first_percent none = f.zero
  first_percent (some List.[]) = f.zero
  first_percent (some (List.◌∷◌ percent _)) = percent

  abbrev pub cpu_percent : ℕ → StatsJson → ℕ
  cpu_percent num_cpu s =
      let cpu_delta = f.minus (f.of_uint64 s.cpu_total_usage) (f.of_uint64 s.pre_cpu_total_usage) in
      let system_delta =
        f.minus (f.of_uint64 s.cpu_system_usage) (f.of_uint64 s.pre_cpu_system_usage) in
      if f.positive system_delta && f.positive cpu_delta
      then f.times (f.times (f.over cpu_delta system_delta) (f.of_uint64 (num_cpus num_cpu s)))
          f.hundred
      else f.zero

  abbrev pub container_metrics : ℕ → List String → StatsJson → ContainerMetrics
  container_metrics num_cpu names s = record {
    container_name = first_name names;
    cpu_percent = cpu_percent num_cpu s;
    mem_used_mb = mebibytes (mem_used s);
    mem_limit_mb = mebibytes s.memory_limit;
  }

  abbrev pub keep_measured :
      ℕ → List String → Option StatsJson → List ContainerMetrics → List ContainerMetrics
  keep_measured num_cpu names none rest = rest
  keep_measured num_cpu names (some s) rest = List.◌∷◌ (container_metrics num_cpu names s) rest

  -- The loop of collectContainerMetrics.
  unfoldable pub collect_listed : ℕ → List Container → List ContainerMetrics
  collect_listed num_cpu List.[] = List.[]
  collect_listed num_cpu (List.◌∷◌ c cs) =
      keep_measured num_cpu c.names c.stats (collect_listed num_cpu cs)

  abbrev pub if_listed : ℕ → Option (List Container) → List ContainerMetrics
  if_listed num_cpu none = List.[]
  if_listed num_cpu (some cs) = collect_listed num_cpu cs

  -- collectAndSendMetrics, up to the message
  unfoldable pub collect_metrics : (agent_name : String) → Measured → MetricsPayload
  collect_metrics agent_name m =
      let disk = first_disk (m.disk "/host") (m.disk "/") in
      record {
        agent_name = agent_name;
        cpu_percent = first_percent m.cpu_percents;
        mem_used_mb = used_mb m.memory;
        mem_total_mb = total_mb m.memory;
        disk_used_gb = disk_used_gb disk;
        disk_total_gb = disk_total_gb disk;
        containers = if_listed m.num_cpu m.containers;
        timestamp = m.timestamp;
      }

  unfoldable pub collect_and_send_metrics :
      {S : Type 0} → (agent_name : String) → Measured → Agent S → Agent S
  collect_and_send_metrics agent_name m a = send_message (metrics (collect_metrics agent_name m)) a
