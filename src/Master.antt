-- ===== src/Master.antt =====
-- The master as a whole: its start (master/main.go main) and what happens to it afterwards, in any
-- order: HTTP requests, and what agents and browsers do on their websockets (master/websocket.go). The
-- network is a source of events.
pub mod Seeded
pub mod Websockets
pub mod Runs
mod Tests
use Prim.Native.String
use game_server_manager.Base.{ℕ, Bool, Option, List, [], ◌∷◌, String, if◌then◌else◌, str_eq}
use game_server_manager.Protocol.{Frame}
use game_server_manager.Hub.{AgentConnection, PendingAgent, Effect, done, blocks, panics, ◌>>=◌}
use game_server_manager.Hub.Lifecycle.{System, step, start, writes, ui_says, ui_opens, ui_closes}
use game_server_manager.Db.{Faults}
use game_server_manager.Api.{Response}
use game_server_manager.Agents.{
  World, handle_agent_ws, pending_disconnects, agent_reads, reader_ends,
}
use game_server_manager.Games.{GameFaults}
use game_server_manager.Games.Cs2.{registered_games}
use game_server_manager.Migrations.{Store}
use game_server_manager.Migrations.Connect.{
  Initialised, not_opened, unreachable, not_migrated, ready, init_db,
}
use game_server_manager.Routes.{Request, Outside, serve}

-- How main gets on: log.Fatalf, or it listens at an address.
pub data Started : Type 0 where
  fatal : Started
  listens : (address : String) → World → Started

abbrev pub address_of : (port : String) → String
address_of port = String.◌++◌ ":" (if str_eq port "" then "8080" else port)

abbrev pub with_database : (port : String) → Initialised → Started
with_database port (not_opened e) = fatal
with_database port (unreachable e) = fatal
with_database port (not_migrated s) = fatal
with_database port (ready s) = listens (address_of port) (record { sys = start; db = s.db })

-- main, up to ListenAndServe; `env` is os.Getenv.
unfoldable pub start_master :
    (env : String → String) (fault : ℕ → Bool) (faults : ℕ → GameFaults)
    (open_url : String → Option String) (ping : ℕ → Option String)
    → Store
    → Started
start_master env fault faults open_url ping s =
    with_database (env "PORT")
      (init_db fault faults registered_games s (env "DATABASE_URL") open_url ping).1

pub data MasterEvent : Type 0 where
  requests : Outside → Request → MasterEvent
  agent_connects : Faults → (conn : ℕ) (first : Option Frame) → MasterEvent
  agent_says : Faults → AgentConnection → Frame → MasterEvent
  agent_leaves : Faults → AgentConnection → MasterEvent
  pending_leaves : PendingAgent → MasterEvent
  -- agentWriter takes a message
  agent_takes : (send : ℕ) → MasterEvent
  browser_opens browser_closes : (conn : ℕ) → MasterEvent
  browser_says : Frame → MasterEvent

abbrev pub with_sys : World → System → World
with_sys w sys = record w { sys = sys }

-- A handler that waits for ever in SendToAgent, or panics, which net/http recovers from, has changed
-- nothing before; other events go on. That the first keeps the hub's lock, so that some of them cannot
-- happen any more, is not asked of a run.
abbrev pub after_request : World → Effect (World × Response) → Effect World
after_request w (done (after, res)) = done after
after_request w blocks = done w
after_request w panics = done w

unfoldable pub master_step : MasterEvent → World → Effect World
master_step (requests o r) w = after_request w (serve o r w)
master_step (agent_connects fault conn first) w = done (handle_agent_ws fault conn first w).0
master_step (agent_says fault a f) w = done (agent_reads fault a f w)
master_step (agent_leaves fault a) w = reader_ends fault a w
master_step (pending_leaves p) w = done (pending_disconnects p w)
master_step (agent_takes send) w = step (writes send) w.sys >>= λ sys. done (with_sys w sys)
master_step (browser_opens conn) w = step (ui_opens conn) w.sys >>= λ sys. done (with_sys w sys)
master_step (browser_closes conn) w = step (ui_closes conn) w.sys >>= λ sys. done (with_sys w sys)
master_step (browser_says f) w = step (ui_says f) w.sys >>= λ sys. done (with_sys w sys)

unfoldable pub master_run : List MasterEvent → World → Effect World
master_run [] w = done w
master_run (e ∷ es) w = master_step e w >>= master_run es
