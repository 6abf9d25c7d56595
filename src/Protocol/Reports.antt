-- ===== src/Protocol/Reports.antt =====
-- The payloads of an agent's messages as JSON: written with the tags of agent/protocol.go, read with
-- those of master/protocol.go.
use game_server_manager.Base.{ℕ, Option, none, some, List, [], ◌∷◌, String}
use game_server_manager.Base.Int.{pos}
use game_server_manager.Protocol.{
  HostInfo, RegisterPayload, HeartbeatPayload, ServerStatusPayload, RconResponsePayload,
  LogLinePayload, ContainerMetrics, MetricsPayload,
}
use game_server_manager.Protocol.Json.{
  Coding, text, int, float, object, array, Fields, no_fields, field, Items, no_items, item,
  opt_text, get, and_then, text_of, int_of, uint64_of, float_of, object_of, items_of,
}

unfoldable pub write_host_info : HostInfo → Fields
write_host_info p = field "os" (text p.os) (
    field "cpu_cores" (int p.cpu_cores)
      (field "memory_gb" (int p.memory_gb) (field "disk_gb" (int p.disk_gb) no_fields)))

unfoldable pub read_host_info : Fields → Option HostInfo
read_host_info fs = and_then (text_of (get "os" fs)) λ os.
    and_then (int_of (get "cpu_cores" fs)) λ cpu_cores.
      and_then (int_of (get "memory_gb" fs)) λ memory_gb.
        and_then (int_of (get "disk_gb" fs)) λ disk_gb.
          some (record { os = os; cpu_cores = cpu_cores; memory_gb = memory_gb; disk_gb = disk_gb })

unfoldable pub write_container_metrics : ContainerMetrics → Fields
write_container_metrics p = field "container_name" (text p.container_name) (
    field "cpu_percent" (float p.cpu_percent) (
      field "mem_used_mb" (int (pos p.mem_used_mb))
        (field "mem_limit_mb" (int (pos p.mem_limit_mb)) no_fields)))

unfoldable pub read_container_metrics : Fields → Option ContainerMetrics
read_container_metrics fs = and_then (text_of (get "container_name" fs)) λ container_name.
    and_then (float_of (get "cpu_percent" fs)) λ cpu_percent.
      and_then (uint64_of (get "mem_used_mb" fs)) λ mem_used_mb.
        and_then (uint64_of (get "mem_limit_mb" fs)) λ mem_limit_mb. some (record {
          container_name = container_name;
          cpu_percent = cpu_percent;
          mem_used_mb = mem_used_mb;
          mem_limit_mb = mem_limit_mb;
        })

unfoldable pub container_items : List ContainerMetrics → Items
unfolding write_container_metrics
container_items [] = no_items
container_items (x ∷ xs) = item (object (write_container_metrics x)) (container_items xs)

abbrev add_container :
    Option ContainerMetrics → Option (List ContainerMetrics) → Option (List ContainerMetrics)
add_container x xs = and_then x λ y. and_then xs λ ys. some (y ∷ ys)

unfoldable pub containers_of : Items → Option (List ContainerMetrics)
unfolding read_container_metrics
containers_of no_items = some []
containers_of (item v rest) =
    add_container (and_then (object_of (some v)) read_container_metrics) (containers_of rest)

unfoldable pub write_register : RegisterPayload → Fields
write_register p = field "agent_name" (text p.agent_name) (
    field "token" (text p.token)
      (field "host_info" (object (write_host_info p.host_info)) no_fields))

unfoldable pub read_register : Fields → Option RegisterPayload
read_register fs = and_then (text_of (get "agent_name" fs)) λ agent_name.
    and_then (text_of (get "token" fs)) λ token.
      and_then (and_then (object_of (get "host_info" fs)) read_host_info)
        λ host_info. some (record { agent_name = agent_name; token = token; host_info = host_info })

unfoldable pub write_heartbeat : HeartbeatPayload → Fields
write_heartbeat p = field "agent_name" (text p.agent_name) no_fields

unfoldable pub read_heartbeat : Fields → Option HeartbeatPayload
read_heartbeat fs =
    and_then (text_of (get "agent_name" fs)) λ agent_name. some (record { agent_name = agent_name })

unfoldable pub write_metrics : MetricsPayload → Fields
write_metrics p = field "agent_name" (text p.agent_name) (
    field "cpu_percent" (float p.cpu_percent) (
      field "mem_used_mb" (int (pos p.mem_used_mb)) (
        field "mem_total_mb" (int (pos p.mem_total_mb)) (
          field "disk_used_gb" (int (pos p.disk_used_gb)) (
            field "disk_total_gb" (int (pos p.disk_total_gb)) (
              field "containers" (array (container_items p.containers))
                (field "timestamp" (text p.timestamp) no_fields)))))))

unfoldable pub read_metrics : Fields → Option MetricsPayload
read_metrics fs = and_then (text_of (get "agent_name" fs)) λ agent_name.
    and_then (float_of (get "cpu_percent" fs)) λ cpu_percent.
      and_then (uint64_of (get "mem_used_mb" fs)) λ mem_used_mb.
        and_then (uint64_of (get "mem_total_mb" fs)) λ mem_total_mb.
          and_then (uint64_of (get "disk_used_gb" fs)) λ disk_used_gb.
            and_then (uint64_of (get "disk_total_gb" fs)) λ disk_total_gb.
              and_then (and_then (items_of (get "containers" fs)) containers_of) λ containers.
                and_then (text_of (get "timestamp" fs)) λ timestamp. some (record {
                  agent_name = agent_name;
                  cpu_percent = cpu_percent;
                  mem_used_mb = mem_used_mb;
                  mem_total_mb = mem_total_mb;
                  disk_used_gb = disk_used_gb;
                  disk_total_gb = disk_total_gb;
                  containers = containers;
                  timestamp = timestamp;
                })

module _ (c : Coding) where
  abbrev pub bytes_of : Option String → Option (List ℕ)
  bytes_of none = none
  bytes_of (some s) = some (c.read s)

  unfoldable pub write_server_status : ServerStatusPayload → Fields
  write_server_status p = field "server_id" (int p.server_id) (
      field "status" (text p.status)
        (opt_text "container_id" p.container_id (opt_text "error" p.error no_fields)))

  unfoldable pub read_server_status : Fields → Option ServerStatusPayload
  read_server_status fs = and_then (int_of (get "server_id" fs)) λ server_id.
      and_then (text_of (get "status" fs)) λ status.
        and_then (text_of (get "container_id" fs)) λ container_id.
          and_then (text_of (get "error" fs)) λ error. some (record {
            server_id = server_id;
            status = status;
            container_id = container_id;
            error = error;
          })

  unfoldable pub write_log_line : LogLinePayload → Fields
  write_log_line p =
      field "server_id" (int p.server_id)
        (field "line" (text (c.written p.line)) (field "time" (text p.time) no_fields))

  unfoldable pub read_log_line : Fields → Option LogLinePayload
  read_log_line fs = and_then (int_of (get "server_id" fs)) λ server_id.
      and_then (bytes_of (text_of (get "line" fs))) λ line.
        and_then (text_of (get "time" fs))
          λ time. some (record { server_id = server_id; line = line; time = time })

  unfoldable pub write_rcon_response : RconResponsePayload → Fields
  write_rcon_response p = field "server_id" (int p.server_id) (
      field "message_id" (text p.message_id)
        (opt_text "response" (c.written p.response) (opt_text "error" p.error no_fields)))

  unfoldable pub read_rcon_response : Fields → Option RconResponsePayload
  read_rcon_response fs = and_then (int_of (get "server_id" fs)) λ server_id.
      and_then (text_of (get "message_id" fs)) λ message_id.
        and_then (bytes_of (text_of (get "response" fs))) λ response.
          and_then (text_of (get "error" fs)) λ error. some (record {
            server_id = server_id;
            message_id = message_id;
            response = response;
            error = error;
          })
