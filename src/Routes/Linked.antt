-- ===== src/Routes/Linked.antt =====
-- Requests and the rows that refer to each other (the handlers of master/api_servers.go and
-- master/api_agents.go, over the foreign keys of master/db.go).
use game_server_manager.Base.{
  ◌&&◌, Option, none, some, List, [], ◌∷◌, String, str_eq, is_some, string_key, choose,
}
use game_server_manager.Base.Int.{ℤ}
use game_server_manager.Hub.{done}
use game_server_manager.Api.{Response, write_error}
use game_server_manager.Agents.{World, approve_agent_handler, delete_agent_handler}
use game_server_manager.Servers.Listings.{get_server, get_server_logs}
use game_server_manager.Servers.{update_server}
use game_server_manager.Servers.Links.{Linked}
use game_server_manager.Base.Text.{after_prefix, trim_prefix, split_slash}
use game_server_manager.Base.Atoi.{atoi}
use game_server_manager.Routes.{
  Request, Outside, second_part, handle_servers, server_action, server_by_number, server_by_parts,
  handle_server_by_id, handle_agents, handle_pending_agents, agent_action, agent_by_number,
  agent_by_parts, handle_agent_by_id, handle_game_definitions, handle_metrics, handle_health, serve,
}
use game_server_manager.Servers.Linked.{update_server-Linked, create_server-Linked}
use game_server_manager.Commands.Linked.{
  LinkedAfter, answers, delete_handler-Linked, start_handler-Linked, stop_handler-Linked,
  rcon_handler-Linked,
}
use game_server_manager.Agents.Linked.{approve_agent_handler-Linked, delete_agent_handler-Linked}

module _ (o : Outside) (r : Request) (w : World) (h : Linked w.db) where
  same : (res : Response) → LinkedAfter (done (w, res))
  same res = answers w res h

  changed : (res : World × Response) → Linked res.0.db → LinkedAfter (done res)
  changed res k = answers res.0 res.1 k

  servers : LinkedAfter (handle_servers o r w)
  unfolding handle_servers
  servers = choose LinkedAfter (str_eq r.method "GET") (same _) (
      choose LinkedAfter (str_eq r.method "POST")
        (changed _ (create_server-Linked o.lower o.fault r.create_body w h)) (same _))

  server : (action : String) (id : ℤ) → LinkedAfter (server_action o r w action id)
  unfolding server_action
  server action id =
      choose LinkedAfter (str_eq action "" && str_eq r.method "GET")
        (same (get_server o.fault id w))
        (choose LinkedAfter (str_eq action "" && str_eq r.method "PUT")
          (changed (update_server o.fault r.update_body id w)
            (update_server-Linked id o.fault r.update_body w h))
          (choose LinkedAfter (str_eq action "" && str_eq r.method "DELETE")
            (delete_handler-Linked id o.fault w h)
            (choose LinkedAfter (str_eq action "start" && str_eq r.method "POST")
              (start_handler-Linked id o.fault w h)
              (choose LinkedAfter (str_eq action "stop" && str_eq r.method "POST")
                (stop_handler-Linked id o.fault w h)
                (choose LinkedAfter (str_eq action "rcon" && str_eq r.method "POST")
                  (rcon_handler-Linked id o.fault o.message_id r.rcon_body w h)
                  (choose LinkedAfter (str_eq action "logs" && str_eq r.method "GET")
                    (same (get_server_logs o.fault id w)) (same (write_error 404 "not found"))))))))

  server_parts : (parts : List String) → LinkedAfter (server_by_parts o r w parts)
  server_parts [] = same _
  server_parts (number ∷ parts) =
      choose LinkedAfter (str_eq number "") (same _) (numbered (atoi number))
    where
      numbered : (n : Option ℤ) → LinkedAfter (server_by_number o r w (second_part parts) n)
      numbered none = same _
      numbered (some id) = server (second_part parts) id

  agent_parts : (parts : List String) → LinkedAfter (agent_by_parts o r w parts)
  unfolding agent_action
  agent_parts [] = same _
  agent_parts (number ∷ parts) =
      choose LinkedAfter (str_eq number "") (same _) (numbered (atoi number))
    where
      numbered : (n : Option ℤ) → LinkedAfter (agent_by_number o r w (second_part parts) n)
      numbered none = same _
      numbered (some id) =
          choose LinkedAfter (str_eq (second_part parts) "approve" && str_eq r.method "POST")
            (changed (approve_agent_handler o.fault o.rand id w)
              (approve_agent_handler-Linked o.fault o.rand id w h))
            (choose LinkedAfter (str_eq (second_part parts) "" && str_eq r.method "DELETE")
              (changed (delete_agent_handler o.fault id w)
                (delete_agent_handler-Linked o.fault id w h))
              (same (write_error 404 "not found")))

  -- Whatever a request asks, to any path but a websocket's, and whatever statements fail: if each
  -- server has its agent, its game and its mode, and each config its server, then so it is when the
  -- request is answered.
  pub serve-Linked : LinkedAfter (serve o r w)
  unfolding serve handle_health handle_pending_agents handle_agent_by_id handle_agents
      handle_game_definitions handle_server_by_id handle_servers handle_metrics
  serve-Linked = choose LinkedAfter (str_eq r.path "/api/health") (same _) (
      choose LinkedAfter (str_eq r.path "/api/agents/pending")
        (choose LinkedAfter (str_eq r.method "GET") (same _) (same _))
        (choose LinkedAfter (is_some (after_prefix "/api/agents/" r.path))
          (agent_parts (split_slash (trim_prefix r.path "/api/agents/")))
          (choose LinkedAfter (str_eq r.path "/api/agents")
            (choose LinkedAfter (str_eq r.method "GET") (same _) (same _))
            (choose LinkedAfter (str_eq r.path "/api/game-definitions")
              (choose LinkedAfter (str_eq r.method "GET") (same _) (same _))
              (choose LinkedAfter (is_some (after_prefix "/api/servers/" r.path))
                (server_parts (split_slash (trim_prefix r.path "/api/servers/")))
                (choose LinkedAfter (str_eq r.path "/api/servers") servers (
                  choose LinkedAfter (is_some (after_prefix "/api/metrics/" r.path)) (same _)
                    (choose LinkedAfter (str_eq r.path "/api/metrics") (same _) (same _)))))))))
