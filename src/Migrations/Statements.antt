-- ===== src/Migrations/Statements.antt =====
-- The statements of master/db.go runMigrations, in the source's order.
use game_server_manager.Base.{ℕ, Bool, List, [], ◌∷◌, ◌++◌, String}
use game_server_manager.Games.{GameDefinition, GameFaults}
use game_server_manager.Db.Schema.{
  plain, refers, belongs, serial, time_now, game_servers_table, server_configs_table,
  rcon_history_table, server_log_snapshots_table,
}
use game_server_manager.Migrations.{
  Column, Table, Statement, create_table, add_column, move_column, drop_column, Store,
  run_statements, seed_store,
}

abbrev pub users_table : Table
users_table = record {
  columns =
      ("id", serial)
      ∷ ("username", plain "VARCHAR(64) UNIQUE NOT NULL")
      ∷ ("password", plain "VARCHAR(255) NOT NULL")
      ∷ ("role", plain "VARCHAR(32) NOT NULL DEFAULT 'admin'")
      ∷ ("created_at", time_now)
      ∷ [];
  unique = [];
}

abbrev pub agents_table : Table
agents_table = record {
  columns =
      ("id", serial)
      ∷ ("name", plain "VARCHAR(64) UNIQUE NOT NULL")
      ∷ ("token", plain "VARCHAR(255) NOT NULL")
      ∷ ("last_seen_at", plain "TIMESTAMP")
      ∷ ("status", plain "VARCHAR(32) NOT NULL DEFAULT 'offline'")
      ∷ ("host_info", plain "JSONB")
      ∷ ("created_at", time_now)
      ∷ [];
  unique = [];
}

abbrev pub game_definitions_table : Table
game_definitions_table = record {
  columns =
      ("id", serial)
      ∷ ("name", plain "VARCHAR(64) UNIQUE NOT NULL")
      ∷ ("slug", plain "VARCHAR(32) UNIQUE NOT NULL")
      ∷ ("docker_image", plain "VARCHAR(255) NOT NULL")
      ∷ ("default_port", plain "INTEGER NOT NULL")
      ∷ ("default_max_players", plain "INTEGER NOT NULL")
      ∷ ("config_file_path", plain "VARCHAR(255)")
      ∷ ("default_env", plain "JSONB NOT NULL DEFAULT '{}'")
      ∷ ("data_path", plain "VARCHAR(255) NOT NULL DEFAULT '/data'")
      ∷ ("created_at", time_now)
      ∷ [];
  unique = [];
}

abbrev pub game_port_mappings_table : Table
game_port_mappings_table = record {
  columns =
      ("id", serial)
      ∷ ("game_definition_id", belongs "INTEGER NOT NULL" "game_definitions")
      ∷ ("label", plain "VARCHAR(32) NOT NULL")
      ∷ ("container_port", plain "INTEGER NOT NULL")
      ∷ ("protocol", plain "VARCHAR(4) NOT NULL DEFAULT 'udp'")
      ∷ ("host_port_offset", plain "INTEGER NOT NULL DEFAULT 0")
      ∷ ("description", plain "VARCHAR(128)")
      ∷ [];
  unique = [];
}

abbrev pub game_modes_table : Table
game_modes_table = record {
  columns =
      ("id", serial)
      ∷ ("game_definition_id", refers "INTEGER NOT NULL" "game_definitions")
      ∷ ("name", plain "VARCHAR(64) NOT NULL")
      ∷ ("slug", plain "VARCHAR(32) NOT NULL")
      ∷ ("config", plain "JSONB NOT NULL DEFAULT '{}'")
      ∷ [];
  unique = ("game_definition_id" ∷ "slug" ∷ []) ∷ [];
}

abbrev pub events_table : Table
events_table = record {
  columns =
      ("id", serial)
      ∷ ("user_id", refers "INTEGER" "users")
      ∷ ("agent_id", refers "INTEGER" "agents")
      ∷ ("game_server_id", refers "INTEGER" "game_servers")
      ∷ ("type", plain "VARCHAR(64) NOT NULL")
      ∷ ("payload", plain "JSONB")
      ∷ ("created_at", time_now)
      ∷ [];
  unique = [];
}

abbrev pub creates : List (String × Table)
creates =
    ("users", users_table)
    ∷ ("agents", agents_table)
    ∷ ("game_definitions", game_definitions_table)
    ∷ ("game_port_mappings", game_port_mappings_table)
    ∷ ("game_modes", game_modes_table)
    ∷ ("game_servers", game_servers_table)
    ∷ ("server_configs", server_configs_table)
    ∷ ("rcon_history", rcon_history_table)
    ∷ ("server_log_snapshots", server_log_snapshots_table)
    ∷ ("events", events_table)
    ∷ []

-- Columns of game_definitions that older databases lack.
abbrev pub adds : List (String × Column)
adds =
    ("default_env", plain "JSONB NOT NULL DEFAULT '{}'")
    ∷ ("data_path", plain "VARCHAR(255) NOT NULL DEFAULT '/data'")
    ∷ ("field_mappings", plain "JSONB NOT NULL DEFAULT '{}'")
    ∷ ("custom_fields", plain "JSONB NOT NULL DEFAULT '[]'")
    ∷ []

-- Columns of game_servers that become configs, and those that go.
abbrev pub moves : List (String × String)
moves =
    ("start_map", "CS2_STARTMAP")
    ∷ ("map_group", "CS2_MAPGROUP")
    ∷ ("extra_args", "CS2_ADDITIONAL_ARGS")
    ∷ []

abbrev pub drops : List String
drops = "start_map" ∷ "map_group" ∷ "extra_args" ∷ []

abbrev pub create_all : List (String × Table) → List Statement
create_all [] = []
create_all ((name, t) ∷ rest) = create_table name t ∷ create_all rest

abbrev pub add_all : List (String × Column) → List Statement
add_all [] = []
add_all ((name, c) ∷ rest) = add_column "game_definitions" name c ∷ add_all rest

abbrev pub move_all : List (String × String) → List Statement
move_all [] = []
move_all ((column, key) ∷ rest) = move_column column key ∷ move_all rest

abbrev pub drop_all : List String → List Statement
drop_all [] = []
drop_all (column ∷ rest) = drop_column "game_servers" column ∷ drop_all rest

abbrev pub migrations : List Statement
migrations = create_all creates ++ add_all adds ++ move_all moves ++ drop_all drops

-- runMigrations; `games` are the registered games.
unfoldable pub run_migrations :
    (fault : ℕ → Bool) (faults : ℕ → GameFaults) → List GameDefinition → Store → Store × Bool
run_migrations fault faults games s = seed_store faults games (run_statements fault 0 migrations s)
