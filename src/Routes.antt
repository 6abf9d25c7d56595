-- ===== src/Routes.antt =====
-- The HTTP routes (master/main.go main, and the dispatch of master/api_servers.go, api_agents.go and
-- api_games.go). What a request's body decodes to is part of the request.
pub mod Servers
pub mod Linked
mod Tests
use Prim.Native.Char.{Char}
use game_server_manager.Base.{
  ℕ, Bool, true, false, ◌&&◌, Option, none, some, List, [], ◌∷◌, String, if◌then◌else◌, str_eq,
  is_some,
}
use game_server_manager.Base.Int.{ℤ}
use game_server_manager.Base.Text.{after_prefix, trim_prefix, split_slash}
use game_server_manager.Base.Atoi.{atoi}
use game_server_manager.Hub.{Effect, done, blocks, panics, get_metrics_history}
use game_server_manager.Db.{Faults}
use game_server_manager.Api.{Response, write_json, write_error, fields, history, plain}
use game_server_manager.Agents.{World, approve_agent_handler, delete_agent_handler}
use game_server_manager.Agents.Listings.{list_agents, list_pending}
use game_server_manager.Servers.{CreateRequest, UpdateRequest, create_server, update_server}
use game_server_manager.Servers.Listings.{list_servers, get_server, get_server_logs}
use game_server_manager.Commands.{start_handler, stop_handler, delete_handler, rcon_handler}
use game_server_manager.Games.Definitions.{list_games}

pub record Request : Type 0 where
  pub method : String
  pub path : String
  pub create_body : Option CreateRequest
  pub update_body : Option UpdateRequest
  pub rcon_body : Option String

-- What comes from outside while a request is handled: the statements that fail, the bytes of
-- rand.Read, the clock as a message id and as the time of the health check, the lower case of
-- characters and the collation of names.
pub record Outside : Type 0 where
  pub fault : Faults
  pub rand : Option (List ℕ)
  pub message_id : String
  pub time : String
  pub lower : Char → Char
  pub name_le : String → String → Bool

-- A handler that only answers.
abbrev pub answers : World → Response → Effect (World × Response)
answers w r = done (w, r)

abbrev pub second_part : List String → String
second_part [] = ""
second_part (action ∷ _) = action

module _ (o : Outside) (r : Request) (w : World) where
  -- handleServers
  unfoldable pub handle_servers : Effect (World × Response)
  handle_servers =
      if str_eq r.method "GET"
      then answers w (list_servers o.fault w)
      else if str_eq r.method "POST"
      then done (create_server o.lower o.fault r.create_body w)
      else answers w (write_error 405 "method not allowed")

  -- The switch of handleServerByID.
  unfoldable pub server_action : (action : String) → ℤ → Effect (World × Response)
  server_action action id =
      if str_eq action "" && str_eq r.method "GET"
      then answers w (get_server o.fault id w)
      else if str_eq action "" && str_eq r.method "PUT"
      then done (update_server o.fault r.update_body id w)
      else if str_eq action "" && str_eq r.method "DELETE"
      then delete_handler o.fault id w
      else if str_eq action "start" && str_eq r.method "POST"
      then start_handler o.fault id w
      else if str_eq action "stop" && str_eq r.method "POST"
      then stop_handler o.fault id w
      else if str_eq action "rcon" && str_eq r.method "POST"
      then rcon_handler o.fault o.message_id r.rcon_body id w
      else if str_eq action "logs" && str_eq r.method "GET"
      then answers w (get_server_logs o.fault id w)
      else answers w (write_error 404 "not found")

  abbrev server_by_number : (action : String) → Option ℤ → Effect (World × Response)
  server_by_number action none = answers w (write_error 400 "invalid server id")
  server_by_number action (some id) = server_action action id

  abbrev server_by_parts : List String → Effect (World × Response)
  server_by_parts [] = answers w (write_error 400 "missing server id")
  server_by_parts (number ∷ parts) =
      if str_eq number ""
      then answers w (write_error 400 "missing server id")
      else server_by_number (second_part parts) (atoi number)

  -- handleServerByID
  unfoldable pub handle_server_by_id : Effect (World × Response)
  unfolding trim_prefix
  handle_server_by_id = server_by_parts (split_slash (trim_prefix r.path "/api/servers/"))

  -- handleAgents
  unfoldable pub handle_agents : Effect (World × Response)
  handle_agents =
      if str_eq r.method "GET"
      then answers w (list_agents o.name_le o.fault w)
      else answers w (write_error 405 "method not allowed")

  -- handlePendingAgents
  unfoldable pub handle_pending_agents : Effect (World × Response)
  handle_pending_agents =
      if str_eq r.method "GET"
      then answers w (list_pending o.fault w)
      else answers w (write_error 405 "method not allowed")

  unfoldable pub agent_action : (action : String) → ℤ → Effect (World × Response)
  agent_action action id =
      if str_eq action "approve" && str_eq r.method "POST"
      then done (approve_agent_handler o.fault o.rand id w)
      else if str_eq action "" && str_eq r.method "DELETE"
      then done (delete_agent_handler o.fault id w)
      else answers w (write_error 404 "not found")

  abbrev agent_by_number : (action : String) → Option ℤ → Effect (World × Response)
  agent_by_number action none = answers w (write_error 400 "invalid agent id")
  agent_by_number action (some id) = agent_action action id

  abbrev agent_by_parts : List String → Effect (World × Response)
  agent_by_parts [] = answers w (write_error 400 "missing agent id")
  agent_by_parts (number ∷ parts) =
      if str_eq number ""
      then answers w (write_error 400 "missing agent id")
      else agent_by_number (second_part parts) (atoi number)

  -- handleAgentByID
  unfoldable pub handle_agent_by_id : Effect (World × Response)
  unfolding trim_prefix
  handle_agent_by_id = agent_by_parts (split_slash (trim_prefix r.path "/api/agents/"))

  -- handleGameDefinitions
  unfoldable pub handle_game_definitions : Effect (World × Response)
  handle_game_definitions =
      if str_eq r.method "GET"
      then answers w (list_games o.name_le o.fault w)
      else answers w (write_error 405 "method not allowed")

  abbrev metrics_of : (agent_name : String) → Response
  metrics_of agent_name =
      if str_eq agent_name ""
      then write_error 400 "missing agent name"
      else write_json 200 (history (get_metrics_history agent_name w.sys.hub))

  -- handleMetrics, of any method
  unfoldable pub handle_metrics : Effect (World × Response)
  unfolding trim_prefix
  handle_metrics = answers w (metrics_of (trim_prefix r.path "/api/metrics/"))

  -- handleHealth
  unfoldable pub handle_health : Effect (World × Response)
  handle_health = answers w (write_json 200 (fields (("status", "ok") ∷ ("time", o.time) ∷ [])))

  -- The ServeMux of main, without the two websocket routes: a pattern that ends in a slash stands for
  -- all paths below it, the longest pattern wins, and a path that lacks only that slash is redirected.
  -- The text of a redirect and the cleaning of a path are not part of it.
  unfoldable pub serve : Effect (World × Response)
  serve =
      if str_eq r.path "/api/health"
      then handle_health
      else if str_eq r.path "/api/agents/pending"
      then handle_pending_agents
      else if is_some (after_prefix "/api/agents/" r.path)
      then handle_agent_by_id
      else if str_eq r.path "/api/agents"
      then handle_agents
      else if str_eq r.path "/api/game-definitions"
      then handle_game_definitions
      else if is_some (after_prefix "/api/servers/" r.path)
      then handle_server_by_id
      else if str_eq r.path "/api/servers"
      then handle_servers
      else if is_some (after_prefix "/api/metrics/" r.path)
      then handle_metrics
      else if str_eq r.path "/api/metrics"
      then answers w (record { status = 301; body = plain "" })
      else answers w (record { status = 404; body = plain "404 page not found" })
