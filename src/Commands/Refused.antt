-- ===== src/Commands/Refused.antt =====
-- Commands for an agent that is not connected (master/api_servers.go).
use game_server_manager.Base.{
  ◌≡◌, refl, false, none, some, [], ◌∷◌, String, lookup, string_key, str_eq,
}
use game_server_manager.Base.Int.{ℤ}
use game_server_manager.Protocol.{StartServerPayload}
use game_server_manager.Hub.{done}
use game_server_manager.Hub.Delivery.{send_to_agent_unknown}
use game_server_manager.Db.{Faults, ServerRow, AgentRow}
use game_server_manager.StartPayload.{Joined, joined_by_id, built, build_server_start_payload}
use game_server_manager.Api.{write_json, write_error, fields}
use game_server_manager.Agents.{World, set_db}
use game_server_manager.Commands.{
  server_with_agent, start_handler, start_built, stop_handler, stop_found, delete_handler,
  delete_found, rcon_handler, rcon_to, delete_server_rows,
}

module _ (fault : Faults) (id : ℤ) (w : World) (f0 : fault 0 ≡ false) where
  -- If the server's agent is not connected, start, stop and RCON are answered by 503 and change
  -- neither the tables nor a channel.
  pub commands_not_connected :
      (s : ServerRow) (a : AgentRow) (j : Joined) (p : StartServerPayload)
      (message_id command : String)
      → server_with_agent id w.db ≡ some (s, a)
      → joined_by_id id w.db ≡ some j
      → j.agent ≡ a
      → build_server_start_payload fault id w.db ≡ built p a.name
      → str_eq command "" ≡ false
      → lookup a.name w.sys.hub.agents ≡ none
      → (start_handler fault id w ≡ done (w, write_error 503 "agent not connected"))
        × (stop_handler fault id w ≡ done (w, write_error 503 "agent not connected"))
        × (rcon_handler fault message_id (some command) id w
            ≡ done (w, write_error 503 "agent not connected"))
  unfolding start_handler stop_handler rcon_handler
  commands_not_connected s a j p message_id command found joined same payload named gone = (
    rw (payload, start_built, send_to_agent_unknown a.name _ w.sys.hub gone) refl,
    rw (f0, found, stop_found, send_to_agent_unknown a.name _ w.sys.hub gone) refl,
    rw (named, f0, joined, rcon_to, same, send_to_agent_unknown a.name _ w.sys.hub gone) refl,
  )

  -- Deleting a server whose agent is not connected still removes its rows and answers 200, while no
  -- channel gets the command to remove its container and volume.
  delete_handler_not_connected :
      (s : ServerRow) (a : AgentRow)
      → fault 1 ≡ false
      → server_with_agent id w.db ≡ some (s, a)
      → lookup a.name w.sys.hub.agents ≡ none
      → delete_handler fault id w
        ≡ done (
          set_db w (delete_server_rows id w.db),
          write_json 200 (fields (("status", "deleted") ∷ [])),
        )
  unfolding delete_handler
  delete_handler_not_connected s a f1 found gone =
      rw (f0, found, delete_found, send_to_agent_unknown a.name _ w.sys.hub gone, f1) refl
