-- ===== src/StartPayload.antt =====
-- buildServerStartPayload (master/api_servers.go): what an agent needs to start a server.
pub mod Env
use game_server_manager.Base.{
  ℕ, Bool, true, false, not, ◌&&◌, Option, none, some, List, [], ◌∷◌, ◌++◌, String, if◌then◌else◌,
  str_eq, map, keep, find, insert, string_key,
}
use game_server_manager.Base.Int.{ℤ, int_eq, add_int}
use game_server_manager.Base.Decimal.{itoa}
use game_server_manager.Protocol.{StartServerPayload, PortMapping, GameFieldMappings}
use game_server_manager.Db.{
  Db, Faults, ServerRow, AgentRow, GameDefinitionRow, GameModeRow, ConfigRow, PortMappingRow,
  server_by_id, agent_by_id, definition_by_id, mode_by_id,
}

abbrev pub Env : Type 0
Env = List (String × String)

-- The rows that the joins of the server queries bring together: the inner joins with
-- game_definitions and agents, and the left join with game_modes.
pub record Joined : Type 0 where
  pub server : ServerRow
  pub definition : GameDefinitionRow
  pub mode : Option GameModeRow
  pub agent : AgentRow

abbrev pub mode_of : Option ℤ → Db → Option GameModeRow
mode_of none db = none
mode_of (some id) db = mode_by_id id db

abbrev pub join_with : ServerRow → Db → Option GameDefinitionRow → Option AgentRow → Option Joined
join_with s db (some d) (some a) =
    some (record { server = s; definition = d; mode = mode_of s.game_mode_id db; agent = a })
join_with s db none o = none
join_with s db (some d) none = none

abbrev pub join : Db → ServerRow → Option Joined
join db s = join_with s db (definition_by_id s.game_definition_id db) (agent_by_id s.agent_id db)

abbrev pub join_found : Db → Option ServerRow → Option Joined
join_found db none = none
join_found db (some s) = join db s

-- WHERE gs.id = $1
unfoldable pub joined_by_id : ℤ → Db → Option Joined
joined_by_id id db = join_found db (server_by_id id db)

abbrev pub mode_config : Option GameModeRow → Env
mode_config none = []
mode_config (some m) = m.config

-- The rows of server_configs of one server.
abbrev pub configs_of : ℤ → Db → Env
configs_of id db =
    map (λ c. (c.key, c.value)) (keep (λ c. int_eq c.game_server_id id) db.server_configs)

abbrev pub port_mappings_of : ℤ → Db → List PortMapping
port_mappings_of definition_id db =
    map
      (λ m. record {
        label = m.label;
        container_port = m.container_port;
        protocol = m.protocol;
        host_port_offset = m.host_port_offset;
      })
      (keep (λ m. int_eq m.game_definition_id definition_id) db.game_port_mappings)

-- `if fm.Env… != "" { envVars[fm.Env…] = … }`, for the number of players and for a password, which
-- is set only if it is there.
abbrev pub set_if : String → String → Env
set_if key value = if str_eq key "" then [] else (key, value) ∷ []

abbrev pub set_secret : String → Option String → Env
set_secret key none = []
set_secret key (some value) = if str_eq value "" then [] else set_if key value

abbrev pub field_vars : GameFieldMappings → ServerRow → Env
field_vars fm s =
    set_if fm.env_max_players (itoa s.max_players)
    ++ (set_secret fm.env_password s.password ++ set_secret fm.env_rcon_password s.rcon_password)

abbrev pub port_vars : GameFieldMappings → ServerRow → Env
port_vars fm s = map (λ e. (e.0, itoa (add_int s.port e.1))) fm.port_derived_vars

-- Assignments into a Go map, in order: into a nil map they panic, which is `none`.
unfoldable pub assign_all : Env → Option Env → Option (Option Env)
assign_all [] m = some m
assign_all ((k, v) ∷ rest) none = none
assign_all ((k, v) ∷ rest) (some m) = assign_all rest (some (insert k v m))

-- All assignments into envVars, in program order; a failed config query gives no rows.
unfoldable pub env_assignments : Faults → Joined → Db → Env
env_assignments fault j db =
    mode_config j.mode
    ++ ((if fault 2 then [] else configs_of j.server.id db)
        ++ (field_vars j.definition.field_mappings j.server
            ++ port_vars j.definition.field_mappings j.server))

abbrev pub env_or_null : Option Env → Env
env_or_null none = []
env_or_null (some m) = m

pub data Built : Type 0 where
  built : StartServerPayload → (agent_name : String) → Built
  not_found db_failed nil_map_panic : Built

abbrev pub payload : Faults → Joined → Db → Env → StartServerPayload
payload fault j db env = record {
  server_id = j.server.id;
  container_name = j.server.container_name;
  image = j.definition.docker_image;
  port = j.server.port;
  max_players = j.server.max_players;
  env = env;
  port_mappings = if fault 1 then [] else port_mappings_of j.server.game_definition_id db;
  data_path = j.definition.data_path;
}

abbrev pub with_env : Faults → Joined → Db → Option (Option Env) → Built
with_env fault j db none = nil_map_panic
with_env fault j db (some env) = built (payload fault j db (env_or_null env)) j.agent.name

abbrev pub build_joined : Faults → Db → Option Joined → Built
build_joined fault db none = not_found
build_joined fault db (some j) =
    with_env fault j db (assign_all (env_assignments fault j db) j.definition.default_env)

-- The statements are: 0 the joined query, 1 the port mappings, 2 the config rows.
unfoldable pub build_server_start_payload : Faults → ℤ → Db → Built
build_server_start_payload fault id db =
    if fault 0 then db_failed else build_joined fault db (joined_by_id id db)
