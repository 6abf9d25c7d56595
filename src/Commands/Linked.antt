-- ===== src/Commands/Linked.antt =====
-- The rows that refer to each other, under startServer, stopServer, deleteServer and sendRcon
-- (master/api_servers.go).
use game_server_manager.Base.{
  refl, Bool, true, false, Option, none, some, String, str_eq, string_key, choose,
}
use game_server_manager.Base.Int.{ℤ, int_eq}
use game_server_manager.Hub.{Hub, Effect, done, blocks, panics, ◌>>=◌}
use game_server_manager.Db.{
  Db, Faults, DbResult, row, no_rows, db_error, ServerRow, AgentRow, query_row,
}
use game_server_manager.Api.{Response}
use game_server_manager.Agents.{World, set_hub}
use game_server_manager.Commands.{
  set_status, server_with_agent, deleted, delete_found, delete_handler, command_sent, answer_sent,
  start_built, start_handler, stop_found, stop_handler, rcon_handler, answer_rcon, rcon_to,
  rcon_target, RconTarget,
}
use game_server_manager.StartPayload.{
  Built, built, not_found, db_failed, nil_map_panic, build_server_start_payload, joined_by_id,
}
use game_server_manager.Servers.Links.{
  Linked, update_servers-Linked, delete_server_rows-Linked, record_rcon-Linked,
}

-- What a handler leaves, if it comes to an answer.
pub data LinkedAfter : Effect (World × Response) → Type 0 where
  answers : (w : World) (res : Response) → Linked w.db → LinkedAfter (done (w, res))
  never_answers : LinkedAfter blocks
  fails : LinkedAfter panics

module _ (id : ℤ) where
  pub set_status-Linked :
      (failing : Bool) (status : String) (db : Db)
      → Linked db
      → Linked (set_status failing id status db)
  set_status-Linked failing status db h = choose Linked failing h (
      update_servers-Linked (λ s. int_eq s.id id)
        (λ s. record s { status = status; updated_at = db.now }) db (λ s. refl) (λ s k. k) h)

  pub deleted-Linked : (fault : Faults) (w : World) → Linked w.db → Linked (deleted fault id w).0.db
  deleted-Linked fault w h = choose Linked (fault 1) h (delete_server_rows-Linked id w.db h)

  -- A handler that sends to an agent and then looks at the answer of SendToAgent.
  pub sent-Linked :
      (e : Effect (Hub × Bool)) (k : Hub × Bool → World × Response)
      → ((r : Hub × Bool) → Linked (k r).0.db)
      → LinkedAfter (e >>= λ r. done (k r))
  sent-Linked (done r) k h = answers _ _ (h r)
  sent-Linked blocks k h = never_answers
  sent-Linked panics k h = fails

  pub delete_handler-Linked :
      (fault : Faults) (w : World) → Linked w.db → LinkedAfter (delete_handler fault id w)
  unfolding delete_handler
  delete_handler-Linked fault w h = by_row (query_row (fault 0) (server_with_agent id w.db))
    where
      by_row : (r : DbResult (ServerRow × AgentRow)) → LinkedAfter (delete_found fault id w r)
      by_row no_rows = answers _ _ (deleted-Linked fault w h)
      by_row db_error = answers w _ h
      by_row (row (s, a)) = sent-Linked _ _ λ r. deleted-Linked fault (set_hub w r.0) h

  pub command-Linked :
      (failing : Bool) (status reply : String) (w : World) (e : Effect (Hub × Bool))
      → Linked w.db
      → LinkedAfter (command_sent failing id status reply w e)
  command-Linked failing status reply w e h = sent-Linked e _ λ r. answered r.0 r.1
    where
      answered :
          (hub : Hub) (ok : Bool) → Linked (answer_sent failing id status reply w hub ok).0.db
      answered hub false = h
      answered hub true = set_status-Linked failing status w.db h

  pub start_handler-Linked :
      (fault : Faults) (w : World) → Linked w.db → LinkedAfter (start_handler fault id w)
  unfolding start_handler
  start_handler-Linked fault w h = by_payload (build_server_start_payload fault id w.db)
    where
      by_payload : (b : Built) → LinkedAfter (start_built fault id w b)
      by_payload not_found = answers w _ h
      by_payload db_failed = answers w _ h
      by_payload nil_map_panic = fails
      by_payload (built p agent_name) = command-Linked _ _ _ w _ h

  pub stop_handler-Linked :
      (fault : Faults) (w : World) → Linked w.db → LinkedAfter (stop_handler fault id w)
  unfolding stop_handler
  stop_handler-Linked fault w h = by_row (query_row (fault 0) (server_with_agent id w.db))
    where
      by_row : (r : DbResult (ServerRow × AgentRow)) → LinkedAfter (stop_found fault id w r)
      by_row no_rows = answers w _ h
      by_row db_error = answers w _ h
      by_row (row (s, a)) = command-Linked _ _ _ w _ h

  pub rcon_handler-Linked :
      (fault : Faults) (message_id : String) (command : Option String) (w : World)
      → Linked w.db
      → LinkedAfter (rcon_handler fault message_id command id w)
  unfolding rcon_handler
  rcon_handler-Linked fault message_id none w h = answers w _ h
  rcon_handler-Linked fault message_id (some command) w h =
      choose LinkedAfter (str_eq command "") (answers w _ h)
        (to_target (rcon_target (query_row (fault 0) (joined_by_id id w.db))))
    where
      answered :
          (hub : Hub) (ok : Bool)
          → Linked (answer_rcon (fault 1) id message_id command w hub ok).0.db
      answered hub false = h
      answered hub true = record_rcon-Linked (fault 1) id command w.db h

      to_target : (t : Option RconTarget) → LinkedAfter (rcon_to fault message_id command id w t)
      to_target none = answers w _ h
      to_target (some t) = sent-Linked _ _ λ r. answered r.0 r.1
