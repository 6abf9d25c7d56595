-- ===== src/Db.antt =====
-- The tables of master/db.go runMigrations that the program reads and writes, and the SQL statements
-- of its queries as functions on them. A row keeps the Go value of a JSON column. SERIAL columns take
-- the next number of a sequence, NOW() reads the field `now`. Constraints are the ones declared in
-- the schema: REFERENCES, UNIQUE, NOT NULL, VARCHAR lengths and the range of INTEGER.
-- The PostgreSQL server and the driver are not modelled beyond that: a handler takes a schedule that
-- says which of its statements report an error, counted from 0, and such a statement does nothing.
pub mod Agents
pub mod Rows
pub mod Schema
use Prim.Native.String.{count}
use game_server_manager.Base.{
  ℕ, suc, ◌+◌, Bool, true, false, ◌&&◌, not, Option, none, some, List, [], ◌∷◌, ◌++◌, String,
  if◌then◌else◌, leb, str_eq, map, keep, find, is_some,
}
use game_server_manager.Base.Int.{ℤ, pos, int_eq, fits}
use game_server_manager.Protocol.{HostInfo, GameFieldMappings}

pub record AgentRow : Type 0 where
  pub id : ℤ
  pub name : String
  pub token : String
  pub last_seen_at : Option ℕ
  pub status : String
  pub host_info : Option HostInfo
  pub created_at : ℕ

pub record GameFieldDef : Type 0 where
  pub key : String
  pub label : String
  pub placeholder : String
  pub type : String

pub record GameDefinitionRow : Type 0 where
  pub id : ℤ
  pub name : String
  pub slug : String
  pub docker_image : String
  pub default_port : ℤ
  pub default_max_players : ℤ
  -- `none` is the JSON value null, which a Go map that is nil encodes to
  pub default_env : Option (List (String × String))
  pub data_path : String
  pub field_mappings : GameFieldMappings
  pub custom_fields : List GameFieldDef

pub record PortMappingRow : Type 0 where
  pub game_definition_id : ℤ
  pub label : String
  pub container_port : ℤ
  pub protocol : String
  pub host_port_offset : ℤ
  pub description : String

pub record GameModeRow : Type 0 where
  pub id : ℤ
  pub game_definition_id : ℤ
  pub name : String
  pub slug : String
  pub config : List (String × String)

pub record ServerRow : Type 0 where
  pub id : ℤ
  pub agent_id : ℤ
  pub game_definition_id : ℤ
  pub game_mode_id : Option ℤ
  pub name : String
  pub container_id : Option String
  pub container_name : String
  pub port : ℤ
  pub max_players : ℤ
  pub password : Option String
  pub rcon_password : Option String
  pub status : String
  pub created_at : ℕ
  pub updated_at : ℕ

pub record ConfigRow : Type 0 where
  pub game_server_id : ℤ
  pub key : String
  pub value : String

pub record RconHistoryRow : Type 0 where
  pub game_server_id : ℤ
  pub command : String
  pub sent_at : ℕ

pub record LogSnapshotRow : Type 0 where
  pub game_server_id : ℤ
  pub line : String
  pub logged_at : ℕ

pub record Db : Type 0 where
  pub now : ℕ
  pub agents_seq : ℕ
  pub agents : List AgentRow
  pub definitions_seq : ℕ
  pub game_definitions : List GameDefinitionRow
  pub game_port_mappings : List PortMappingRow
  pub modes_seq : ℕ
  pub game_modes : List GameModeRow
  pub servers_seq : ℕ
  pub game_servers : List ServerRow
  pub server_configs : List ConfigRow
  pub rcon_history : List RconHistoryRow
  pub server_log_snapshots : List LogSnapshotRow

-- Which statements of a handler fail.
abbrev pub Faults : Type 0
Faults = ℕ → Bool

-- What a statement that returns a row gives: the row, sql.ErrNoRows, or another error.
pub data DbResult {ℓ} (A : Type ℓ) : Type ℓ where
  row : A → DbResult A
  no_rows db_error : DbResult A

abbrev pub first_row {ℓ} : {A : Type ℓ} → Option A → DbResult A
first_row none = no_rows
first_row (some a) = row a

-- SELECT … LIMIT the first match, unless the statement fails.
abbrev pub query_row {ℓ} : {A : Type ℓ} → Bool → Option A → DbResult A
query_row failing o = if failing then db_error else first_row o

-- A statement whose error is ignored.
abbrev pub exec : Bool → Db → Db → Db
exec failing db after = if failing then db else after

abbrev pub varchar : ℕ → String → Bool
varchar n s = leb (count s) n

-- PostgreSQL's INTEGER.
abbrev pub is_integer : ℤ → Bool
is_integer = fits 31

abbrev pub agent_by_id : ℤ → Db → Option AgentRow
agent_by_id id db = find (λ a. int_eq a.id id) db.agents

abbrev pub agent_by_name : String → Db → Option AgentRow
agent_by_name name db = find (λ a. str_eq a.name name) db.agents

abbrev pub definition_by_id : ℤ → Db → Option GameDefinitionRow
definition_by_id id db = find (λ d. int_eq d.id id) db.game_definitions

abbrev pub mode_by_id : ℤ → Db → Option GameModeRow
mode_by_id id db = find (λ m. int_eq m.id id) db.game_modes

abbrev pub server_by_id : ℤ → Db → Option ServerRow
server_by_id id db = find (λ s. int_eq s.id id) db.game_servers

-- UPDATE … WHERE test
abbrev pub update_rows {ℓ} : {A : Type ℓ} → (A → Bool) → (A → A) → List A → List A
update_rows test change [] = []
update_rows test change (x ∷ xs) = (if test x then change x else x) ∷ update_rows test change xs

abbrev pub update_agents : (AgentRow → Bool) → (AgentRow → AgentRow) → Db → Db
update_agents test change db = record db { agents = update_rows test change db.agents }

abbrev pub update_servers : (ServerRow → Bool) → (ServerRow → ServerRow) → Db → Db
update_servers test change db = record db { game_servers = update_rows test change db.game_servers }
