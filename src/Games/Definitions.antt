-- ===== src/Games/Definitions.antt =====
-- Listing the games with their modes (master/api_games.go handleGameDefinitions).
use game_server_manager.Base.{
  Bool, true, false, Option, none, some, List, [], ◌∷◌, ◌++◌, String, if◌then◌else◌, str_eq, map,
  keep, lookup, insert, is_some,
}
use game_server_manager.Base.Int.{ℤ, int_eq, int_key}
use game_server_manager.Base.Sort.{sort}
use game_server_manager.Db.{Faults, GameDefinitionRow, GameModeRow}
use game_server_manager.Api.{Response, write_json, write_error, GameListing, ModeOption}
use game_server_manager.Api
use game_server_manager.Agents.{World}

-- A row of the left join.
abbrev pub JoinedRow : Type 0
JoinedRow = GameDefinitionRow × Option GameModeRow

abbrev pub with_modes : GameDefinitionRow → List GameModeRow → List JoinedRow
with_modes d [] = (d, none) ∷ []
with_modes d (m ∷ ms) = map (λ x. (d, some x)) (m ∷ ms)

unfoldable pub left_join : List GameModeRow → List GameDefinitionRow → List JoinedRow
left_join modes [] = []
left_join modes (d ∷ ds) =
    with_modes d (keep (λ m. int_eq m.game_definition_id d.id) modes) ++ left_join modes ds

-- ORDER BY gd.name, gm.name, by the database's collation; only a mode that is missing can be NULL
abbrev pub mode_le : (String → String → Bool) → Option GameModeRow → Option GameModeRow → Bool
mode_le name_le a none = true
mode_le name_le none (some b) = false
mode_le name_le (some a) (some b) = name_le a.name b.name

abbrev pub row_le : (String → String → Bool) → JoinedRow → JoinedRow → Bool
row_le name_le (d, m) (d', m') =
    if str_eq d.name d'.name then mode_le name_le m m' else name_le d.name d'.name

abbrev pub game_listing : GameDefinitionRow → GameListing
game_listing d = record {
  id = d.id;
  name = d.name;
  slug = d.slug;
  default_port = d.default_port;
  default_max_players = d.default_max_players;
  default_env = d.default_env;
  field_mappings = d.field_mappings;
  custom_fields = d.custom_fields;
  modes = [];
}

-- defsMap and defOrder
pub record Grouped : Type 0 where
  pub defs : List (ℤ × GameListing)
  pub order : List ℤ

abbrev pub add_definition : GameDefinitionRow → Grouped → Grouped
add_definition d g =
    if is_some (lookup d.id g.defs)
    then g
    else record { defs = insert d.id (game_listing d) g.defs; order = g.order ++ d.id ∷ [] }

abbrev pub mode_option : GameModeRow → ModeOption
mode_option m = record { id = m.id; name = m.name; slug = m.slug }

abbrev pub append_mode : GameModeRow → GameListing → GameListing
append_mode m l = record l { modes = l.modes ++ mode_option m ∷ [] }

abbrev pub change_found : ℤ → GameModeRow → Option GameListing → Grouped → Grouped
change_found id m none g = g
change_found id m (some l) g = record g { defs = insert id (append_mode m l) g.defs }

abbrev pub add_mode : ℤ → Option GameModeRow → Grouped → Grouped
add_mode id none g = g
add_mode id (some m) g = change_found id m (lookup id g.defs) g

-- One round of the loop over the rows.
unfoldable pub add_row : JoinedRow → Grouped → Grouped
add_row (d, m) g = add_mode d.id m (add_definition d g)

unfoldable pub add_rows : List JoinedRow → Grouped → Grouped
add_rows [] g = g
add_rows (r ∷ rows) g = add_rows rows (add_row r g)

abbrev pub no_games : Grouped
no_games = record { defs = []; order = [] }

-- result, in the order of defOrder
unfoldable pub group_rows : List JoinedRow → List (Option GameListing)
group_rows rows = let g = add_rows rows no_games in map (λ id. lookup id g.defs) g.order

-- handleGameDefinitions, GET
unfoldable pub list_games : (String → String → Bool) → Faults → World → Response
list_games name_le fault w =
    if fault 0
    then write_error 500 "db error"
    else write_json 200 (
        Api.games
          (group_rows (sort (row_le name_le) (left_join w.db.game_modes w.db.game_definitions))))
