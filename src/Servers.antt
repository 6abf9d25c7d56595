-- ===== src/Servers.antt =====
-- Creating and updating servers (master/api_servers.go createServer, updateServer). A request body
-- is `none` where it does not decode; a map of the body is its entries in the order in which the loop
-- meets them.
pub mod Listings
pub mod Listed
pub mod Links
pub mod Linked
pub mod UpdateConfigs
pub mod Update
pub mod CreateConfigs
pub mod Create
use Prim.Native.Char.{Char}
use Prim.Native.String
use game_server_manager.Base.{
  ℕ, suc, ◌+◌, Bool, true, false, not, ◌&&◌, ◌||◌, Option, none, some, List, [], ◌∷◌, ◌++◌, String,
  if◌then◌else◌, str_eq, keep, find, is_some, map,
}
use game_server_manager.Base.Int.{ℤ, pos, int_eq}
use game_server_manager.Protocol.{
  Frame, message, start_server, stop_server, delete_server, rcon_command, StartServerPayload,
  GameFieldMappings,
}
use game_server_manager.Hub.{Hub, Effect, done, blocks, panics, ◌>>=◌, send_to_agent}
use game_server_manager.Db.{
  Db, Faults, ServerRow, ConfigRow, AgentRow, exec, varchar, is_integer, agent_by_id,
  definition_by_id, mode_by_id, server_by_id, update_servers, update_rows, DbResult, row, no_rows,
  db_error, query_row,
}
use game_server_manager.Db.Schema.{game_servers_table, refers_to}
use game_server_manager.ContainerName.{container_name}
use game_server_manager.StartPayload.{
  Joined, joined_by_id, Built, built, not_found, db_failed, nil_map_panic,
  build_server_start_payload,
}
use game_server_manager.Api.{Response, write_json, write_error, fields, created, driver_error}
use game_server_manager.Agents.{World, set_hub, set_db}

pub record CreateRequest : Type 0 where
  pub agent_id : ℤ
  pub game_definition_id : ℤ
  pub game_mode_id : Option ℤ
  pub name : String
  pub port : ℤ
  pub max_players : ℤ
  pub password : String
  pub rcon_password : String
  pub custom_config : List (String × String)

pub record UpdateRequest : Type 0 where
  pub port : ℤ
  pub max_players : ℤ
  pub password : String
  pub rcon_password : String
  pub custom_config : List (String × String)

abbrev pub is_zero : ℤ → Bool
is_zero n = int_eq n (pos 0)

-- var password interface{}; if req.Password != "" { password = req.Password }
abbrev pub null_if_empty : String → Option String
null_if_empty s = if str_eq s "" then none else some s

abbrev pub varchar_null : ℕ → Option String → Bool
varchar_null n none = true
varchar_null n (some s) = varchar n s

abbrev pub mode_exists : Option ℤ → Db → Bool
mode_exists none db = true
mode_exists (some id) db = is_some (mode_by_id id db)

abbrev pub is_incomplete : CreateRequest → Bool
is_incomplete r =
    str_eq r.name "" || is_zero r.port || is_zero r.agent_id || is_zero r.game_definition_id

-- The constraints of game_servers on an inserted row, with the foreign keys that its CREATE declares.
abbrev pub insert_allowed : CreateRequest → String → Db → Bool
insert_allowed r container db =
    (not (refers_to game_servers_table "agent_id" "agents") || is_some (agent_by_id r.agent_id db))
    && (not (refers_to game_servers_table "game_definition_id" "game_definitions")
        || is_some (definition_by_id r.game_definition_id db))
    && (not (refers_to game_servers_table "game_mode_id" "game_modes")
        || mode_exists r.game_mode_id db)
    && varchar 64 r.name
    && varchar 128 container
    && is_integer r.port
    && is_integer r.max_players
    && varchar_null 255 (null_if_empty r.password)
    && varchar_null 255 (null_if_empty r.rcon_password)

abbrev pub new_server : CreateRequest → String → Db → ServerRow
new_server r container db = record {
  id = pos db.servers_seq;
  agent_id = r.agent_id;
  game_definition_id = r.game_definition_id;
  game_mode_id = r.game_mode_id;
  name = r.name;
  container_id = none;
  container_name = container;
  port = r.port;
  max_players = r.max_players;
  password = null_if_empty r.password;
  rcon_password = null_if_empty r.rcon_password;
  status = "stopped";
  created_at = db.now;
  updated_at = db.now;
}

abbrev pub is_config : ℤ → String → ConfigRow → Bool
is_config id key c = int_eq c.game_server_id id && str_eq c.key key

abbrev pub find_config : ℤ → String → Db → Option ConfigRow
find_config id key db = find (is_config id key) db.server_configs

abbrev pub add_config : ℤ → String → String → Db → Db
add_config id key value db = record db {
  server_configs =
      db.server_configs ++ record { game_server_id = id; key = key; value = value } ∷ [];
}

-- INSERT … ON CONFLICT (game_server_id, key) DO NOTHING
abbrev pub insert_config : ℤ → String → String → Db → Db
insert_config id key value db =
    if is_some (find_config id key db) || not (varchar 128 key)
    then db
    else add_config id key value db

-- The loop of createServer over custom_config: statement 1 + i writes entry i.
unfoldable pub insert_configs : Faults → ℕ → ℤ → List (String × String) → Db → Db
insert_configs fault i id [] db = db
insert_configs fault i id ((k, v) ∷ entries) db =
    insert_configs fault (suc i) id entries
      (if str_eq v "" then db else exec (fault i) db (insert_config id k v db))

abbrev pub insert_server : CreateRequest → String → Db → Db
insert_server r container db = record db {
  servers_seq = suc db.servers_seq;
  game_servers = db.game_servers ++ new_server r container db ∷ [];
}

-- A refused INSERT has taken its number from the sequence all the same.
abbrev pub skip_number : Db → Db
skip_number db = record db { servers_seq = suc db.servers_seq }

-- createServer
unfoldable pub create_server :
    (Char → Char) → Faults → Option CreateRequest → World → World × Response
unfolding container_name
create_server lower fault none w = (w, write_error 400 "invalid request body")
create_server lower fault (some r) w =
    if is_incomplete r
    then (w, write_error 400 "name, port, agent_id and game_definition_id are required")
    else if fault 0
    then (w, write_error 500 "failed to create server")
    else if not (insert_allowed r (container_name lower r.name) w.db)
    then (set_db w (skip_number w.db), write_error 500 "failed to create server")
    else (
      set_db w (
          insert_configs fault 1 (pos w.db.servers_seq) r.custom_config
            (insert_server r (container_name lower r.name) w.db)),
      write_json 201 (created (pos w.db.servers_seq)),
    )

-- COALESCE(NULLIF(n, 0), old)
abbrev pub keep_if_zero : ℤ → ℤ → ℤ
keep_if_zero n old = if is_zero n then old else n

abbrev pub change_server : UpdateRequest → Db → ServerRow → ServerRow
change_server r db s = record s {
  port = keep_if_zero r.port s.port;
  max_players = keep_if_zero r.max_players s.max_players;
  password = null_if_empty r.password;
  rcon_password = null_if_empty r.rcon_password;
  updated_at = db.now;
}

-- What the parameters of the UPDATE must satisfy: a length is checked where a row takes the value.
abbrev pub update_allowed : UpdateRequest → Option ServerRow → Bool
update_allowed r found =
    is_integer r.port
    && is_integer r.max_players
    && (not (is_some found)
        || varchar_null 255 (null_if_empty r.password)
          && varchar_null 255 (null_if_empty r.rcon_password))

abbrev pub delete_config : ℤ → String → Db → Db
delete_config id key db = record db {
  server_configs = keep (λ c. not (is_config id key c)) db.server_configs;
}

-- INSERT … ON CONFLICT (game_server_id, key) DO UPDATE SET value = EXCLUDED.value
abbrev pub upsert_config : ℤ → String → String → Db → Db
upsert_config id key value db =
    if not (varchar 128 key)
    then db
    else if is_some (find_config id key db)
    then record db {
      server_configs =
          update_rows (is_config id key) (λ c. record c { value = value }) db.server_configs;
    }
    else add_config id key value db

-- The loop of updateServer over custom_config.
unfoldable pub update_configs : Faults → ℕ → ℤ → List (String × String) → Db → Db
update_configs fault i id [] db = db
update_configs fault i id ((k, v) ∷ entries) db =
    update_configs fault (suc i) id entries
      (exec (fault i) db (if str_eq v "" then delete_config id k db else upsert_config id k v db))

-- updateServer: a number that INTEGER does not hold is an error of the statement.
unfoldable pub update_server : Faults → Option UpdateRequest → ℤ → World → World × Response
update_server fault none id w = (w, write_error 400 "invalid request body")
update_server fault (some r) id w =
    if fault 0 || not (is_integer id && update_allowed r (server_by_id id w.db))
    then (w, write_error 500 "failed to update server")
    else if not (is_some (server_by_id id w.db))
    then (w, write_error 404 "server not found")
    else (
      set_db w (
          update_configs fault 1 id r.custom_config
            (update_servers (λ s. int_eq s.id id) (change_server r w.db) w.db)),
      write_json 200 (fields (("status", "updated") ∷ [])),
    )
