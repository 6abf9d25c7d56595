-- ===== src/Commands/Status.antt =====
-- Start and stop for an agent that is connected (master/api_servers.go startServer, stopServer).
use mathlib.Core.Option
use game_server_manager.Base.{
  ℕ, ◌<◌, ◌≡◌, refl, ◌∙◌, Bool, false, some, [], ◌∷◌, ◌++◌, String, lookup, string_key, nat_key,
  length, find-passes,
}
use game_server_manager.Base.Int.{ℤ, int_eq}
use game_server_manager.Protocol.{Frame, message, start_server, stop_server, StartServerPayload}
use game_server_manager.Hub.{AgentConnection, Chan, Effect, done, send_to_agent, send_capacity}
use game_server_manager.Hub.Delivery.{send_to_agent-delivers}
use game_server_manager.Db.{Faults, ServerRow, AgentRow, server_by_id}
use game_server_manager.Db.Rows.{find-update_rows}
use game_server_manager.StartPayload.{built, build_server_start_payload}
use game_server_manager.Api.{Response, write_json, fields}
use game_server_manager.Agents.{World, set_db, set_hub}
use game_server_manager.Commands.{
  server_with_agent, set_status, command_sent, start_handler, start_built, stop_handler, stop_found,
}

-- A command that went out: the answer is 200, the frame is the last in the agent's channel, and the
-- server's row has the new status, its other columns as before.
pub record IsSent (f : Frame) (id : ℤ) (status reply : String) (s : ServerRow) (c : Chan) (ref : ℕ)
    (w : World) (e : Effect (World × Response)) : Type 0 where
  pub after : World
  pub answered : e ≡ done (after, write_json 200 (fields (("status", reply) ∷ [])))
  pub queued :
      lookup ref after.sys.hub.channels
      ≡ some (record { buffer = c.buffer ++ f ∷ []; closed = false })
  pub row : server_by_id id after.db ≡ some (record s { status = status; updated_at = w.db.now })

module _ (fault : Faults) (id : ℤ) (w : World) (s : ServerRow) (name : String) (a : AgentConnection)
    (c : Chan) (stored : server_by_id id w.db ≡ some s)
    (connected : lookup name w.sys.hub.agents ≡ some a)
    (chan : lookup a.send w.sys.hub.channels ≡ some c) (open_ : c.closed ≡ false)
    (room : length c.buffer < send_capacity) where
  row_after :
      (status : String)
      → server_by_id id (set_status false id status w.db)
        ≡ some (record s { status = status; updated_at = w.db.now })
  row_after status =
      find-update_rows (λ x. int_eq x.id id) (λ x. int_eq x.id id)
        (λ x. record x { status = status; updated_at = w.db.now }) w.db.game_servers (λ x. refl)
      ∙ rw (stored, Option.map, find-passes (λ x. int_eq x.id id) w.db.game_servers s stored) refl

  command_sent-IsSent :
      (f : Frame) (status reply : String) (failing : Bool)
      → failing ≡ false
      → IsSent f id status reply s c a.send w
          (command_sent failing id status reply w (send_to_agent name f w.sys.hub))
  command_sent-IsSent f status reply failing ok =
      let (h', sent, queued, _, _) =
        send_to_agent-delivers name f w.sys.hub a c connected chan open_ room in
      record {
        after = set_db (set_hub w h') (set_status false id status w.db);
        answered = rw (sent, ok) refl;
        queued = queued;
        row = row_after status;
      }

  -- Starting a server whose payload can be built and whose agent is connected, with room in its
  -- channel, sends the agent the start command and sets the status to starting.
  pub start_handler-IsSent :
      (p : StartServerPayload)
      → fault 3 ≡ false
      → build_server_start_payload fault id w.db ≡ built p name
      → IsSent
          (message (start_server p))
          id
          "starting"
          "start command sent"
          s
          c
          a.send
          w
          (start_handler fault id w)
  unfolding start_handler
  start_handler-IsSent p f3 payload =
      rw (payload, start_built)
        (command_sent-IsSent (message (start_server p)) "starting" "start command sent" (fault 3)
          f3)

  -- Stopping a server whose agent is connected, with room in its channel, sends the agent the stop
  -- command for the server's container and sets the status to stopping.
  pub stop_handler-IsSent :
      (agent : AgentRow)
      → fault 0 ≡ false
      → fault 1 ≡ false
      → server_with_agent id w.db ≡ some (s, agent)
      → agent.name ≡ name
      → IsSent
          (message (stop_server (record { server_id = id; container_name = s.container_name })))
          id
          "stopping"
          "stop command sent"
          s
          c
          a.send
          w
          (stop_handler fault id w)
  unfolding stop_handler
  stop_handler-IsSent agent f0 f1 found named =
      rw (f0, found, stop_found, named)
        (command_sent-IsSent
          (message (stop_server (record { server_id = id; container_name = s.container_name })))
          "stopping" "stop command sent" (fault 1) f1)
