-- ===== src/Protocol/Wire.antt =====
-- The payloads of the master's messages as JSON: written with the tags of master/protocol.go, read
-- with those of agent/protocol.go.
use game_server_manager.Base.{Option, some, List, [], ◌∷◌}
use game_server_manager.Protocol.{
  ApprovedPayload, PortMapping, StartServerPayload, StopServerPayload, DeleteServerPayload,
  RconCommandPayload, StreamLogsPayload,
}
use game_server_manager.Protocol.Json.{
  text, int, object, array, Fields, no_fields, field, Items, no_items, item, get, and_then, text_of,
  int_of, object_of, items_of, env_fields, env_of,
}

unfoldable pub write_port_mapping : PortMapping → Fields
write_port_mapping p = field "label" (text p.label) (
    field "container_port" (int p.container_port) (
      field "protocol" (text p.protocol)
        (field "host_port_offset" (int p.host_port_offset) no_fields)))

unfoldable pub read_port_mapping : Fields → Option PortMapping
read_port_mapping fs = and_then (text_of (get "label" fs)) λ label.
    and_then (int_of (get "container_port" fs)) λ container_port.
      and_then (text_of (get "protocol" fs)) λ protocol.
        and_then (int_of (get "host_port_offset" fs)) λ host_port_offset. some (record {
          label = label;
          container_port = container_port;
          protocol = protocol;
          host_port_offset = host_port_offset;
        })

unfoldable pub mapping_items : List PortMapping → Items
unfolding write_port_mapping
mapping_items [] = no_items
mapping_items (x ∷ xs) = item (object (write_port_mapping x)) (mapping_items xs)

abbrev add_mapping : Option PortMapping → Option (List PortMapping) → Option (List PortMapping)
add_mapping x xs = and_then x λ y. and_then xs λ ys. some (y ∷ ys)

unfoldable pub mappings_of : Items → Option (List PortMapping)
unfolding read_port_mapping
mappings_of no_items = some []
mappings_of (item v rest) =
    add_mapping (and_then (object_of (some v)) read_port_mapping) (mappings_of rest)

unfoldable pub write_approved : ApprovedPayload → Fields
write_approved p = field "token" (text p.token) no_fields

unfoldable pub read_approved : Fields → Option ApprovedPayload
read_approved fs = and_then (text_of (get "token" fs)) λ token. some (record { token = token })

unfoldable pub write_start_server : StartServerPayload → Fields
write_start_server p = field "server_id" (int p.server_id) (
    field "container_name" (text p.container_name) (
      field "image" (text p.image) (
        field "port" (int p.port) (
          field "max_players" (int p.max_players) (
            field "env" (object (env_fields p.env)) (
              field "port_mappings" (array (mapping_items p.port_mappings))
                (field "data_path" (text p.data_path) no_fields)))))))

unfoldable pub read_start_server : Fields → Option StartServerPayload
read_start_server fs = and_then (int_of (get "server_id" fs)) λ server_id.
    and_then (text_of (get "container_name" fs)) λ container_name.
      and_then (text_of (get "image" fs)) λ image. and_then (int_of (get "port" fs)) λ port.
        and_then (int_of (get "max_players" fs)) λ max_players.
          and_then (and_then (object_of (get "env" fs)) env_of) λ env.
            and_then (and_then (items_of (get "port_mappings" fs)) mappings_of) λ port_mappings.
              and_then (text_of (get "data_path" fs)) λ data_path. some (record {
                server_id = server_id;
                container_name = container_name;
                image = image;
                port = port;
                max_players = max_players;
                env = env;
                port_mappings = port_mappings;
                data_path = data_path;
              })

unfoldable pub write_stop_server : StopServerPayload → Fields
write_stop_server p =
    field "server_id" (int p.server_id) (field "container_name" (text p.container_name) no_fields)

unfoldable pub read_stop_server : Fields → Option StopServerPayload
read_stop_server fs = and_then (int_of (get "server_id" fs)) λ server_id.
    and_then (text_of (get "container_name" fs))
      λ container_name. some (record { server_id = server_id; container_name = container_name })

unfoldable pub write_delete_server : DeleteServerPayload → Fields
write_delete_server p = field "server_id" (int p.server_id) (
    field "container_name" (text p.container_name)
      (field "volume_name" (text p.volume_name) no_fields))

unfoldable pub read_delete_server : Fields → Option DeleteServerPayload
read_delete_server fs = and_then (int_of (get "server_id" fs)) λ server_id.
    and_then (text_of (get "container_name" fs)) λ container_name.
      and_then (text_of (get "volume_name" fs)) λ volume_name. some (record {
        server_id = server_id;
        container_name = container_name;
        volume_name = volume_name;
      })

unfoldable pub write_rcon_command : RconCommandPayload → Fields
write_rcon_command p = field "server_id" (int p.server_id) (
    field "message_id" (text p.message_id) (
      field "command" (text p.command) (
        field "rcon_host" (text p.rcon_host) (
          field "rcon_port" (int p.rcon_port)
            (field "rcon_password" (text p.rcon_password) no_fields)))))

unfoldable pub read_rcon_command : Fields → Option RconCommandPayload
read_rcon_command fs = and_then (int_of (get "server_id" fs)) λ server_id.
    and_then (text_of (get "message_id" fs)) λ message_id.
      and_then (text_of (get "command" fs)) λ command.
        and_then (text_of (get "rcon_host" fs)) λ rcon_host.
          and_then (int_of (get "rcon_port" fs)) λ rcon_port.
            and_then (text_of (get "rcon_password" fs)) λ rcon_password. some (record {
              server_id = server_id;
              message_id = message_id;
              command = command;
              rcon_host = rcon_host;
              rcon_port = rcon_port;
              rcon_password = rcon_password;
            })

unfoldable pub write_stream_logs : StreamLogsPayload → Fields
write_stream_logs p =
    field "server_id" (int p.server_id) (field "container_name" (text p.container_name) no_fields)

unfoldable pub read_stream_logs : Fields → Option StreamLogsPayload
read_stream_logs fs = and_then (int_of (get "server_id" fs)) λ server_id.
    and_then (text_of (get "container_name" fs))
      λ container_name. some (record { server_id = server_id; container_name = container_name })
