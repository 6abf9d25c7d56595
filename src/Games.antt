-- ===== src/Games.antt =====
-- The registered games and their seeding into the database (master/gamedefs.go). Marshalling these
-- values to JSON does not fail.
pub mod Cs2
pub mod Modes
pub mod Mappings
pub mod Seeding
pub mod Definitions
pub mod Grouping
mod Tests
use game_server_manager.Base.{
  ℕ, zero, suc, Bool, true, false, not, ◌&&◌, Option, none, some, List, [], ◌∷◌, ◌++◌, String,
  if◌then◌else◌, str_eq, keep, find, is_some,
}
use game_server_manager.Base.Int.{ℤ, pos, int_eq}
use game_server_manager.Protocol.{GameFieldMappings}
use game_server_manager.Db.{
  Db, GameDefinitionRow, GameFieldDef, PortMappingRow, GameModeRow, exec, varchar, is_integer,
  update_rows,
}

pub record PortMappingDef : Type 0 where
  pub label : String
  pub container_port : ℤ
  pub protocol : String
  pub host_port_offset : ℤ
  pub description : String

pub record GameModeDef : Type 0 where
  pub name : String
  pub slug : String
  pub config : List (String × String)

pub record GameDefinition : Type 0 where
  pub name : String
  pub slug : String
  pub docker_image : String
  pub default_port : ℤ
  pub max_players : ℤ
  pub data_path : String
  -- `none` is the nil map
  pub default_env : Option (List (String × String))
  pub field_mappings : GameFieldMappings
  pub custom_fields : List GameFieldDef
  pub port_mappings : List PortMappingDef
  pub modes : List GameModeDef

-- RegisterGame
unfoldable pub register_game : GameDefinition → List GameDefinition → List GameDefinition
register_game g registered = registered ++ g ∷ []

-- Which statements fail while one game is seeded.
pub record GameFaults : Type 0 where
  pub upsert : Bool
  pub delete : Bool
  pub mapping : ℕ → Bool
  pub mode : ℕ → Bool

abbrev pub definition_by_slug : String → Db → Option GameDefinitionRow
definition_by_slug slug db = find (λ d. str_eq d.slug slug) db.game_definitions

abbrev pub definition_by_name : String → Db → Option GameDefinitionRow
definition_by_name name db = find (λ d. str_eq d.name name) db.game_definitions

-- What the columns of game_definitions can hold.
abbrev pub definition_allowed : GameDefinition → Bool
definition_allowed g =
    varchar 64 g.name
    && varchar 32 g.slug
    && varchar 255 g.docker_image
    && is_integer g.default_port
    && is_integer g.max_players
    && varchar 255 g.data_path

-- ON CONFLICT (slug) DO UPDATE: the name stays.
abbrev pub update_definition : GameDefinition → GameDefinitionRow → GameDefinitionRow
update_definition g d = record d {
  docker_image = g.docker_image;
  default_env = g.default_env;
  data_path = g.data_path;
  field_mappings = g.field_mappings;
  custom_fields = g.custom_fields;
  default_max_players = g.max_players;
  default_port = g.default_port;
}

abbrev pub new_definition : ℕ → GameDefinition → GameDefinitionRow
new_definition seq g = record {
  id = pos seq;
  name = g.name;
  slug = g.slug;
  docker_image = g.docker_image;
  default_port = g.default_port;
  default_max_players = g.max_players;
  default_env = g.default_env;
  data_path = g.data_path;
  field_mappings = g.field_mappings;
  custom_fields = g.custom_fields;
}

abbrev pub upsert_found : GameDefinition → Db → Option GameDefinitionRow → Option (ℤ × Db)
upsert_found g db (some d) = some (
  d.id,
  record db {
    definitions_seq = suc db.definitions_seq;
    game_definitions =
        update_rows (λ x. str_eq x.slug g.slug) (update_definition g) db.game_definitions;
  },
)
upsert_found g db none =
    if is_some (definition_by_name g.name db)
    then none
    else some (
      pos db.definitions_seq,
      record db {
        definitions_seq = suc db.definitions_seq;
        game_definitions = db.game_definitions ++ new_definition db.definitions_seq g ∷ [];
      },
    )

-- The INSERT … ON CONFLICT … RETURNING id; `none` is an error, also that of the unique name.
unfoldable pub upsert_definition : Bool → GameDefinition → Db → Option (ℤ × Db)
upsert_definition failing g db =
    if failing
    then none
    else if not (definition_allowed g)
    then none
    else upsert_found g db (definition_by_slug g.slug db)

abbrev pub mapping_allowed : PortMappingDef → Bool
mapping_allowed pm =
    varchar 32 pm.label
    && is_integer pm.container_port
    && varchar 4 pm.protocol
    && is_integer pm.host_port_offset
    && varchar 128 pm.description

abbrev pub mapping_row : ℤ → PortMappingDef → PortMappingRow
mapping_row id pm = record {
  game_definition_id = id;
  label = pm.label;
  container_port = pm.container_port;
  protocol = pm.protocol;
  host_port_offset = pm.host_port_offset;
  description = pm.description;
}

abbrev pub insert_mapping : ℤ → PortMappingDef → Db → Db
insert_mapping id pm db =
    if mapping_allowed pm
    then record db { game_port_mappings = db.game_port_mappings ++ mapping_row id pm ∷ [] }
    else db

unfoldable pub insert_mappings : (ℕ → Bool) → ℕ → ℤ → List PortMappingDef → Db → Db
insert_mappings fault i id [] db = db
insert_mappings fault i id (pm ∷ pms) db =
    insert_mappings fault (suc i) id pms (exec (fault i) db (insert_mapping id pm db))

abbrev pub delete_mappings : ℤ → Db → Db
delete_mappings id db = record db {
  game_port_mappings = keep (λ m. not (int_eq m.game_definition_id id)) db.game_port_mappings;
}

abbrev pub is_mode : ℤ → String → GameModeRow → Bool
is_mode id slug m = int_eq m.game_definition_id id && str_eq m.slug slug

abbrev pub find_mode : ℤ → String → Db → Option GameModeRow
find_mode id slug db = find (is_mode id slug) db.game_modes

abbrev pub mode_allowed : GameModeDef → Bool
mode_allowed m = varchar 64 m.name && varchar 32 m.slug

abbrev pub mode_row : ℕ → ℤ → GameModeDef → GameModeRow
mode_row seq id m = record {
  id = pos seq;
  game_definition_id = id;
  name = m.name;
  slug = m.slug;
  config = m.config;
}

-- ON CONFLICT (game_definition_id, slug) DO UPDATE SET config
abbrev pub upsert_mode : ℤ → GameModeDef → Db → Db
upsert_mode id m db =
    if not (mode_allowed m)
    then db
    else if is_some (find_mode id m.slug db)
    then record db {
      modes_seq = suc db.modes_seq;
      game_modes =
          update_rows (is_mode id m.slug) (λ x. record x { config = m.config }) db.game_modes;
    }
    else record db {
      modes_seq = suc db.modes_seq;
      game_modes = db.game_modes ++ mode_row db.modes_seq id m ∷ [];
    }

unfoldable pub upsert_modes : (ℕ → Bool) → ℕ → ℤ → List GameModeDef → Db → Db
upsert_modes fault i id [] db = db
upsert_modes fault i id (m ∷ ms) db =
    upsert_modes fault (suc i) id ms (exec (fault i) db (upsert_mode id m db))

abbrev pub seed_parts : GameFaults → GameDefinition → Db → Option (ℤ × Db) → Db
seed_parts fault g db none = db
seed_parts fault g db (some (id, after)) = upsert_modes fault.mode 0 id g.modes (
    insert_mappings fault.mapping 0 id g.port_mappings
      (exec fault.delete after (delete_mappings id after)))

-- One round of seedGames.
unfoldable pub seed_game : GameFaults → GameDefinition → Db → Db
seed_game fault g db = seed_parts fault g db (upsert_definition fault.upsert g db)

-- seedGames
unfoldable pub seed_games : (ℕ → GameFaults) → ℕ → List GameDefinition → Db → Db
seed_games faults i [] db = db
seed_games faults i (g ∷ games) db = seed_games faults (suc i) games (seed_game (faults i) g db)
