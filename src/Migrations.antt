-- ===== src/Migrations.antt =====
-- master/db.go runMigrations: the schema statements, what each does to the tables and columns that
-- it finds, and their run, which stops at the first error. A table is its columns in order, with
-- the text of each declaration; a table that is there already is taken to have the constraints that
-- its CREATE declares. `legacy` holds the texts of the columns of game_servers that only older
-- versions of the program had, by column and server. Each statement commits on its own.
pub mod Statements
pub mod Execution
pub mod Tables
pub mod Columns
pub mod Dropped
pub mod Legacy
pub mod Moved
pub mod Stages
pub mod Applied
pub mod Again
pub mod Connect
pub mod Linked
mod Tests
use game_server_manager.Base.{
  ℕ, suc, Bool, true, false, ◌&&◌, Option, none, some, List, [], ◌∷◌, String, if◌then◌else◌, str_eq,
  is_some, lookup, insert, delete, string_key,
}
use game_server_manager.Base.Int.{ℤ, int_key}
use game_server_manager.Db.{Db, ServerRow}
pub use game_server_manager.Db.Schema.{Column, Table}
use game_server_manager.Servers.{insert_config}
use game_server_manager.Games.{GameDefinition, GameFaults, seed_games}

pub data Statement : Type 0 where
  -- CREATE TABLE IF NOT EXISTS
  create_table : (name : String) → Table → Statement
  -- ALTER TABLE … ADD COLUMN IF NOT EXISTS
  add_column : (table name : String) → Column → Statement
  -- DO $$ … $$: what a column of game_servers holds becomes a config of each server
  move_column : (column key : String) → Statement
  -- ALTER TABLE … DROP COLUMN IF EXISTS
  drop_column : (table name : String) → Statement

pub record Store : Type 0 where
  pub tables : List (String × Table)
  -- a NULL has no entry
  pub legacy : List (String × List (ℤ × String))
  pub db : Db

abbrev pub in_columns : String → Option Table → Bool
in_columns column none = false
in_columns column (some t) = is_some (lookup column t.columns)

abbrev pub has_column : (table column : String) → List (String × Table) → Bool
has_column table column tables = in_columns column (lookup table tables)

abbrev pub referenced : Option String → List (String × Table) → Bool
referenced none tables = true
referenced (some name) tables = is_some (lookup name tables)

-- Each table that the columns refer to is there; such a table is taken to have its id.
unfoldable pub references_exist : List (String × Column) → List (String × Table) → Bool
references_exist [] tables = true
references_exist ((_, c) ∷ columns) tables =
    referenced c.references tables && references_exist columns tables

unfoldable pub create : String → Table → Store → Option Store
create name t s =
    if is_some (lookup name s.tables)
    then some s
    else if references_exist t.columns s.tables
    then some (record s { tables = insert name t s.tables })
    else none

abbrev pub add_to : (table name : String) → Column → Store → Option Table → Option Store
add_to table name c s none = none
add_to table name c s (some t) = some (
    if is_some (lookup name t.columns) then s else record s {
      tables = insert table (record t { columns = insert name c t.columns }) s.tables;
    })

abbrev pub drop_values :
    (table name : String) → List (String × List (ℤ × String)) → List (String × List (ℤ × String))
drop_values table name legacy = if str_eq table "game_servers" then delete name legacy else legacy

abbrev pub drop_from : (table name : String) → Store → Option Table → Option Store
drop_from table name s none = none
drop_from table name s (some t) = some (
    if is_some (lookup name t.columns)
    then record s {
      tables = insert table (record t { columns = delete name t.columns }) s.tables;
      legacy = drop_values table name s.legacy;
    }
    else s)

abbrev pub column_values : Option (List (ℤ × String)) → List (ℤ × String)
column_values none = []
column_values (some values) = values

-- WHERE column IS NOT NULL AND column != ''
abbrev pub selected : Option String → Option String
selected none = none
selected (some v) = if str_eq v "" then none else some v

abbrev pub insert_selected : ℤ → String → Option String → Db → Db
insert_selected id key none db = db
insert_selected id key (some v) db = insert_config id key v db

-- INSERT … SELECT id, key, column FROM game_servers … ON CONFLICT DO NOTHING
unfoldable pub move_values : List (ℤ × String) → String → List ServerRow → Db → Db
move_values values key [] db = db
move_values values key (s ∷ servers) db =
    move_values values key servers (insert_selected s.id key (selected (lookup s.id values)) db)

abbrev pub holds_configs : List (String × Table) → Bool
holds_configs tables =
    has_column "server_configs" "game_server_id" tables
    && has_column "server_configs" "key" tables
    && has_column "server_configs" "value" tables

unfoldable pub move : (column key : String) → Store → Option Store
move column key s =
    if has_column "game_servers" column s.tables
    then (if holds_configs s.tables
        then some (record s {
          db = move_values (column_values (lookup column s.legacy)) key s.db.game_servers s.db;
        })
        else none)
    else some s

unfoldable pub execute : Statement → Store → Option Store
execute (create_table name t) s = create name t s
execute (add_column table name c) s = add_to table name c s (lookup table s.tables)
execute (move_column column key) s = move column key s
execute (drop_column table name) s = drop_from table name s (lookup table s.tables)

-- The loop over the migrations: the store it leaves, and whether it got to the end. `fault` says
-- which statements fail for a reason outside, such as a lost connection.
abbrev pub attempt : Bool → Statement → Store → Option Store
attempt failing st s = if failing then none else execute st s

abbrev pub go_on : Store → Option Store → (Store → Store × Bool) → Store × Bool
go_on s none rest = (s, false)
go_on s (some after) rest = rest after

unfoldable pub run_statements : (ℕ → Bool) → ℕ → List Statement → Store → Store × Bool
run_statements fault i [] s = (s, true)
run_statements fault i (st ∷ sts) s =
    go_on s (attempt (fault i) st s) (run_statements fault (suc i) sts)

abbrev pub seed_store : (ℕ → GameFaults) → List GameDefinition → Store × Bool → Store × Bool
seed_store faults games (s, false) = (s, false)
seed_store faults games (s, true) = (record s { db = seed_games faults 0 games s.db }, true)
