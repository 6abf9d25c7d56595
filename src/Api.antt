-- ===== src/Api.antt =====
-- master/api_helpers.go: the answers of the HTTP handlers. A response is the status code and the
-- value that writeJSON encodes.
use game_server_manager.Base.{ℕ, Bool, Option, List, String}
use game_server_manager.Base.Int.{ℤ}
use game_server_manager.Protocol.{HostInfo, MetricsPayload, GameFieldMappings}
use game_server_manager.Db.{GameFieldDef}

-- Rows of GET /api/agents (master/api_agents.go AgentRow).
pub record AgentListing : Type 0 where
  pub id : ℤ
  pub name : String
  pub status : String
  pub last_seen_at : Option ℕ
  pub host_info : Option HostInfo
  pub created_at : ℕ
  pub connected : Bool

-- Rows of GET /api/agents/pending (PendingRow).
pub record PendingListing : Type 0 where
  pub id : ℤ
  pub name : String
  pub status : String
  pub host_info : Option HostInfo
  pub last_seen_at : Option ℕ
  pub connected : Bool

-- Rows of GET /api/servers (master/api_servers.go ServerRow).
pub record ServerListing : Type 0 where
  pub id : ℤ
  pub name : String
  pub status : String
  pub port : ℤ
  pub max_players : ℤ
  pub has_password : Bool
  pub container_id : Option String
  pub container_name : String
  pub created_at : ℕ
  pub updated_at : ℕ
  pub game_name : String
  pub game_slug : String
  pub mode_name : Option String
  pub mode_slug : Option String
  pub agent_name : String

-- GET /api/servers/{id}
pub record ServerDetail : Type 0 where
  pub id : ℤ
  pub name : String
  pub status : String
  pub port : ℤ
  pub max_players : ℤ
  pub password : Option String
  pub rcon_password : Option String
  pub container_id : Option String
  pub container_name : String
  pub game_name : String
  pub game_slug : String
  pub mode_name : Option String
  pub agent_name : String
  pub custom_config : List (String × String)

-- Rows of GET /api/game-definitions (master/api_games.go ModeOption, GameDef).
pub record ModeOption : Type 0 where
  pub id : ℤ
  pub name : String
  pub slug : String

pub record GameListing : Type 0 where
  pub id : ℤ
  pub name : String
  pub slug : String
  pub default_port : ℤ
  pub default_max_players : ℤ
  pub default_env : Option (List (String × String))
  pub field_mappings : GameFieldMappings
  pub custom_fields : List GameFieldDef
  pub modes : List ModeOption

pub data Body : Type 0 where
  error : String → Body
  -- {"error": err.Error()} with the driver's message
  driver_error : Body
  fields : List (String × String) → Body
  created : (id : ℤ) → Body
  agents : List AgentListing → Body
  pending : List PendingListing → Body
  servers : List ServerListing → Body
  server : ServerDetail → Body
  logs : List (String × ℕ) → Body
  history : List MetricsPayload → Body
  -- pointers: `none` is null
  games : List (Option GameListing) → Body
  -- a text that is no JSON: net/http's answer for a path that no pattern matches
  plain : String → Body

pub record Response : Type 0 where
  pub status : ℕ
  pub body : Body

-- writeJSON and writeError
abbrev pub write_json : ℕ → Body → Response
write_json status body = record { status = status; body = body }

abbrev pub write_error : ℕ → String → Response
write_error status message = write_json status (error message)
