-- ===== src/Servers/Listings.antt =====
-- Reading servers back (master/api_servers.go listServers, getServer, getServerLogs).
use game_server_manager.Base.{
  Bool, false, not, ◌||◌, Option, none, some, List, [], ◌∷◌, String, if◌then◌else◌, leb, str_eq,
  map, keep, take, merge, string_key,
}
use game_server_manager.Base.Int.{ℤ, int_eq, leb_ℤ}
use game_server_manager.Base.Sort.{sort}
use game_server_manager.Db.{
  Db, Faults, DbResult, row, no_rows, db_error, query_row, is_integer, ServerRow, GameModeRow,
  LogSnapshotRow,
}
use game_server_manager.StartPayload.{Joined, join, joined_by_id, configs_of}
use game_server_manager.Api.{Response, write_json, write_error, ServerListing, ServerDetail}
use game_server_manager.Api
use game_server_manager.Agents.{World}

-- The rows of game_servers that the inner joins keep.
abbrev pub keep_joined : Option Joined → List Joined → List Joined
keep_joined none js = js
keep_joined (some j) js = j ∷ js

unfoldable pub join_all : Db → List ServerRow → List Joined
join_all db [] = []
join_all db (s ∷ rows) = keep_joined (join db s) (join_all db rows)

abbrev pub mode_column {ℓ} : {A : Type ℓ} → (GameModeRow → A) → Option GameModeRow → Option A
mode_column column none = none
mode_column column (some m) = some (column m)

-- gs.password IS NOT NULL AND gs.password != ''
abbrev pub has_password : Option String → Bool
has_password none = false
has_password (some s) = not (str_eq s "")

abbrev pub server_listing : Joined → ServerListing
server_listing j = record {
  id = j.server.id;
  name = j.server.name;
  status = j.server.status;
  port = j.server.port;
  max_players = j.server.max_players;
  has_password = has_password j.server.password;
  container_id = j.server.container_id;
  container_name = j.server.container_name;
  created_at = j.server.created_at;
  updated_at = j.server.updated_at;
  game_name = j.definition.name;
  game_slug = j.definition.slug;
  mode_name = mode_column (λ m. m.name) j.mode;
  mode_slug = mode_column (λ m. m.slug) j.mode;
  agent_name = j.agent.name;
}

-- ORDER BY gs.id
abbrev pub by_id : Joined → Joined → Bool
by_id a b = leb_ℤ a.server.id b.server.id

-- listServers
unfoldable pub list_servers : Faults → World → Response
list_servers fault w =
    if fault 0
    then write_error 500 "failed to query servers"
    else write_json 200
        (Api.servers (map server_listing (sort by_id (join_all w.db w.db.game_servers))))

abbrev pub server_detail : Joined → List (String × String) → ServerDetail
server_detail j custom_config = record {
  id = j.server.id;
  name = j.server.name;
  status = j.server.status;
  port = j.server.port;
  max_players = j.server.max_players;
  password = j.server.password;
  rcon_password = j.server.rcon_password;
  container_id = j.server.container_id;
  container_name = j.server.container_name;
  game_name = j.definition.name;
  game_slug = j.definition.slug;
  mode_name = mode_column (λ m. m.name) j.mode;
  agent_name = j.agent.name;
  custom_config = custom_config;
}

-- A failed query of the config rows leaves the map empty.
abbrev pub detail_found : Faults → ℤ → World → DbResult Joined → Response
detail_found fault id w no_rows = write_error 404 "server not found"
detail_found fault id w db_error = write_error 500 "failed to query server"
detail_found fault id w (row j) =
    write_json 200
      (Api.server (server_detail j (merge (if fault 1 then [] else configs_of id w.db) [])))

-- getServer: a number that INTEGER does not hold is an error of the query.
unfoldable pub get_server : Faults → ℤ → World → Response
get_server fault id w =
    detail_found fault id w (query_row (fault 0 || not (is_integer id)) (joined_by_id id w.db))

-- ORDER BY logged_at DESC
abbrev pub logged_later : LogSnapshotRow → LogSnapshotRow → Bool
logged_later a b = leb b.logged_at a.logged_at

-- getServerLogs
unfoldable pub get_server_logs : Faults → ℤ → World → Response
get_server_logs fault id w =
    if fault 0
    then write_error 500 "failed to query logs"
    else write_json 200 (
        Api.logs (
          map (λ l. (l.line, l.logged_at))
            (take 200 (
              sort logged_later
                (keep (λ l. int_eq l.game_server_id id) w.db.server_log_snapshots)))))
