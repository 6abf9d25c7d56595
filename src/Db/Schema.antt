-- ===== src/Db/Schema.antt =====
-- The CREATE statements of master/db.go runMigrations for the servers and what belongs to them, and the
-- foreign keys that they declare.
use game_server_manager.Base.{
  Bool, true, false, ◌&&◌, ◌||◌, Option, none, some, List, [], ◌∷◌, String, str_eq,
}

pub record Column : Type 0 where
  pub declared : String
  pub references : Option String
  pub cascades : Bool

pub record Table : Type 0 where
  pub columns : List (String × Column)
  -- UNIQUE over several columns
  pub unique : List (List String)

abbrev pub plain : String → Column
plain declared = record { declared = declared; references = none; cascades = false }

abbrev pub refers : (declared table : String) → Column
refers declared table = record { declared = declared; references = some table; cascades = false }

-- REFERENCES … ON DELETE CASCADE
abbrev pub belongs : (declared table : String) → Column
belongs declared table = record { declared = declared; references = some table; cascades = true }

abbrev pub serial : Column
serial = plain "SERIAL PRIMARY KEY"

abbrev pub time_now : Column
time_now = plain "TIMESTAMP NOT NULL DEFAULT NOW()"

abbrev pub game_servers_table : Table
game_servers_table = record {
  columns =
      ("id", serial)
      ∷ ("agent_id", refers "INTEGER NOT NULL" "agents")
      ∷ ("game_definition_id", refers "INTEGER NOT NULL" "game_definitions")
      ∷ ("game_mode_id", refers "INTEGER" "game_modes")
      ∷ ("name", plain "VARCHAR(64) NOT NULL")
      ∷ ("container_id", plain "VARCHAR(128)")
      ∷ ("container_name", plain "VARCHAR(128) NOT NULL")
      ∷ ("port", plain "INTEGER NOT NULL")
      ∷ ("max_players", plain "INTEGER NOT NULL")
      ∷ ("password", plain "VARCHAR(255)")
      ∷ ("rcon_password", plain "VARCHAR(255)")
      ∷ ("status", plain "VARCHAR(32) NOT NULL DEFAULT 'stopped'")
      ∷ ("created_at", time_now)
      ∷ ("updated_at", time_now)
      ∷ [];
  unique = [];
}

abbrev pub server_configs_table : Table
server_configs_table = record {
  columns =
      ("id", serial)
      ∷ ("game_server_id", belongs "INTEGER NOT NULL" "game_servers")
      ∷ ("key", plain "VARCHAR(128) NOT NULL")
      ∷ ("value", plain "TEXT")
      ∷ ("is_secret", plain "BOOLEAN NOT NULL DEFAULT FALSE")
      ∷ [];
  unique = ("game_server_id" ∷ "key" ∷ []) ∷ [];
}

abbrev pub rcon_history_table : Table
rcon_history_table = record {
  columns =
      ("id", serial)
      ∷ ("game_server_id", belongs "INTEGER NOT NULL" "game_servers")
      ∷ ("user_id", refers "INTEGER" "users")
      ∷ ("command", plain "TEXT NOT NULL")
      ∷ ("response", plain "TEXT")
      ∷ ("sent_at", time_now)
      ∷ [];
  unique = [];
}

abbrev pub server_log_snapshots_table : Table
server_log_snapshots_table = record {
  columns =
      ("id", serial)
      ∷ ("game_server_id", belongs "INTEGER NOT NULL" "game_servers")
      ∷ ("line", plain "TEXT NOT NULL")
      ∷ ("logged_at", time_now)
      ∷ [];
  unique = [];
}

abbrev is_target : String → Option String → Bool
is_target target none = false
is_target target (some table) = str_eq table target

abbrev column_refers : (column target : String) → List (String × Column) → Bool
column_refers column target [] = false
column_refers column target ((name, c) ∷ columns) =
    str_eq name column && is_target target c.references || column_refers column target columns

-- A column of a table REFERENCES another table.
abbrev pub refers_to : Table → (column target : String) → Bool
refers_to t column target = column_refers column target t.columns

abbrev column_cascades : (column : String) → List (String × Column) → Bool
column_cascades column [] = false
column_cascades column ((name, c) ∷ columns) =
    str_eq name column && c.cascades || column_cascades column columns

-- The rows of a table go with the row that a column refers to.
abbrev pub goes_with : Table → (column : String) → Bool
goes_with t column = column_cascades column t.columns
