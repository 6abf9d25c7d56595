-- ===== src/Agents/Linked.antt =====
-- The rows that refer to each other, under approveAgentHandler and deleteAgentHandler
-- (master/api_agents.go).
use game_server_manager.Base.{
  ℕ, ◌≡◌, refl, Bool, false, Option, none, some, List, String, str_eq, find, is_some, lookup,
  string_key, choose, otherwise,
}
use game_server_manager.Base.Int.{ℤ, int_eq}
use game_server_manager.Hub.{PendingAgent}
use game_server_manager.Db.{Db, Faults, query_row, agent_by_id}
use game_server_manager.Db.Agents.{approve_agent, update_agent_status, hex_encode}
use game_server_manager.Agents.{
  World, set_db, approve_pending, approve_pending_agent, found_name, finish_approval, approve_named,
  approve_agent_handler, delete_agent_handler,
}
use game_server_manager.Servers.Links.{Linked, update_agents-Linked, without_agent-Linked}
use game_server_manager.Servers.Linked.{Answered}

abbrev TokenLinked : Option (String × Db) → Type 0
TokenLinked none = Unit
TokenLinked (some (_, db)) = Linked db

pub approve_agent-Linked :
    (rand : Option (List ℕ)) (failing : Bool) (id : ℤ) (db : Db)
    → Linked db
    → TokenLinked (approve_agent rand failing id db)
unfolding approve_agent
approve_agent-Linked none failing id db h = tt
approve_agent-Linked (some bytes) failing id db h = choose TokenLinked failing tt (
    update_agents-Linked (λ a. int_eq a.id id)
      (λ a. record a { token = hex_encode bytes; status = "approved" }) db (λ a. refl) h)

pub approve_agent_handler-Linked :
    (fault : Faults) (rand : Option (List ℕ)) (id : ℤ) (w : World)
    → Linked w.db
    → Linked (approve_agent_handler fault rand id w).0.db
unfolding approve_agent_handler approve_pending_agent update_agent_status
approve_agent_handler-Linked fault rand id w h =
    by_name (found_name (query_row (fault 0) (agent_by_id id w.db)))
  where
    approved_pending :
        (p : Option PendingAgent) (name token : String) (v : World)
        → Linked v.db
        → Linked (approve_pending fault p token id name v).0.db
    approved_pending none name token v k = k
    approved_pending (some p) name token v k = choose Linked (fault 2) k (
        update_agents-Linked (λ a. str_eq a.name name)
          (λ a. record a {
            status = "online";
            last_seen_at = some v.db.now;
            host_info = some p.info;
          })
          v.db (λ a. refl) k)

    finished :
        (name : String) (o : Option (String × Db))
        → TokenLinked o
        → Linked (finish_approval fault id name w o).0.db
    finished name none k = h
    finished name (some (token, db)) k =
        approved_pending (lookup name w.sys.hub.pending_agents) name token (set_db w db) k

    by_name : (name : Option String) → Linked (approve_named fault rand id w name).0.db
    by_name none = h
    by_name (some name) = finished name _ (approve_agent-Linked rand (fault 1) id w.db h)

pub delete_agent_handler-Linked :
    (fault : Faults) (id : ℤ) (w : World)
    → Linked w.db
    → Linked (delete_agent_handler fault id w).0.db
unfolding delete_agent_handler
delete_agent_handler-Linked fault id w h = choose Answered (fault 0) h (
    otherwise Answered (is_some (find (λ s. int_eq s.agent_id id) w.db.game_servers)) h
      λ unused. without_agent-Linked id w.db (is_some-none _ unused) h)
  where
    is_some-none : {A : Type 0} (o : Option A) → is_some o ≡ false → o ≡ none
    is_some-none none e = refl
    is_some-none (some a) e = absurd (cc)
