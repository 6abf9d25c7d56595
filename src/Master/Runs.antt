-- ===== src/Master/Runs.antt =====
-- The rows that refer to each other, from the start of the master on (master/main.go, api_servers.go,
-- api_agents.go, websocket.go, over the foreign keys of master/db.go).
use game_server_manager.Base.{
  ℕ, ◌≡◌, subst, Bool, true, false, Option, none, some, List, [], ◌∷◌, String,
}
use game_server_manager.Hub.{Effect, done, blocks, panics, ◌>>=◌}
use game_server_manager.Hub.Lifecycle.{System, step, writes, ui_says, ui_opens, ui_closes}
use game_server_manager.Api.{Response}
use game_server_manager.Agents.{World, pending_disconnects}
use game_server_manager.Servers.Links.{Linked}
use game_server_manager.Commands.Linked.{LinkedAfter, answers, never_answers, fails}
use game_server_manager.Routes.{serve}
use game_server_manager.Routes.Linked.{serve-Linked}
use game_server_manager.Games.{GameFaults}
use game_server_manager.Games.Cs2.{registered_games}
use game_server_manager.Migrations.{Store, run_statements, seed_store}
use game_server_manager.Migrations.Statements.{migrations, run_migrations}
use game_server_manager.Migrations.Linked.{run_statements-Linked}
use game_server_manager.Migrations.Connect.{migrated, after_wait, opened, init_db, dsn_of, wait_for}
use game_server_manager.Master.{
  Started, fatal, listens, with_database, start_master, MasterEvent, requests, agent_connects,
  agent_says, agent_leaves, pending_leaves, agent_takes, browser_opens, browser_closes,
  browser_says, with_sys, after_request, master_step, master_run,
}
use game_server_manager.Master.Seeded.{seed_games-Linked}
use game_server_manager.Master.Websockets.{
  LinkedWorld, goes_on, waits_for_ever, panicked_there, handle_agent_ws-Linked, agent_reads-Linked,
  reader_ends-Linked,
}

bind-LinkedWorld :
    (e : Effect World) (k : World → Effect World)
    → LinkedWorld e
    → ((w : World) → Linked w.db → LinkedWorld (k w))
    → LinkedWorld (e >>= k)
bind-LinkedWorld _ k (goes_on w h) next = next w h
bind-LinkedWorld _ k waits_for_ever next = waits_for_ever
bind-LinkedWorld _ k panicked_there next = panicked_there

answered :
    (w : World) (e : Effect (World × Response))
    → Linked w.db
    → LinkedAfter e
    → LinkedWorld (after_request w e)
answered w _ h (answers after res k) = goes_on after k
answered w _ h never_answers = goes_on w h
answered w _ h fails = goes_on w h

hub_only :
    (w : World) (e : Effect System) → Linked w.db → LinkedWorld (e >>= λ sys. done (with_sys w sys))
hub_only w (done sys) h = goes_on (with_sys w sys) h
hub_only w blocks h = waits_for_ever
hub_only w panics h = panicked_there

master_step-Linked : (e : MasterEvent) (w : World) → Linked w.db → LinkedWorld (master_step e w)
unfolding master_step pending_disconnects
master_step-Linked (requests o r) w h = answered w (serve o r w) h (serve-Linked o r w h)
master_step-Linked (agent_connects fault conn first) w h =
    goes_on _ (handle_agent_ws-Linked fault conn first w h)
master_step-Linked (agent_says fault a f) w h = goes_on _ (agent_reads-Linked fault a f w h)
master_step-Linked (agent_leaves fault a) w h = reader_ends-Linked fault a w h
master_step-Linked (pending_leaves p) w h = goes_on _ h
master_step-Linked (agent_takes send) w h = hub_only w (step (writes send) w.sys) h
master_step-Linked (browser_opens conn) w h = hub_only w (step (ui_opens conn) w.sys) h
master_step-Linked (browser_closes conn) w h = hub_only w (step (ui_closes conn) w.sys) h
master_step-Linked (browser_says f) w h = hub_only w (step (ui_says f) w.sys) h

run-Linked : (es : List MasterEvent) (w : World) → Linked w.db → LinkedWorld (master_run es w)
unfolding master_run
run-Linked [] w h = goes_on w h
run-Linked (e ∷ es) w h =
    bind-LinkedWorld (master_step e w) (master_run es) (master_step-Linked e w h) (run-Linked es)

-- What a start leaves, if main gets to listen.
pub data LinkedStart : Started → Type 0 where
  gave_up : LinkedStart fatal
  started : (address : String) (w : World) → Linked w.db → LinkedStart (listens address w)

module _ (port : String) where
  seeded :
      (faults : ℕ → GameFaults) (r : Store × Bool)
      → Linked r.0.db
      → LinkedStart (with_database port (migrated (seed_store faults registered_games r)))
  seeded faults (s, false) h = gave_up
  seeded faults (s, true) h = started _ _ (seed_games-Linked faults 0 registered_games s.db h)

module _ (env : String → String) (fault : ℕ → Bool) (faults : ℕ → GameFaults)
    (open_url : String → Option String) (ping : ℕ → Option String) (s : Store)
    (h : Linked s.db) where
  start-Linked : LinkedStart (start_master env fault faults open_url ping s)
  unfolding start_master init_db run_migrations
  start-Linked = by_open (open_url (dsn_of (env "DATABASE_URL")))
    where
      by_wait :
          (e : Option String)
          → LinkedStart (with_database (env "PORT") (after_wait fault faults registered_games s e))
      by_wait none =
          seeded (env "PORT") faults (run_statements fault 0 migrations s)
            (run_statements-Linked fault 0 migrations s h)
      by_wait (some e) = gave_up

      by_open :
          (o : Option String)
          → LinkedStart
              (with_database (env "PORT") (opened fault faults registered_games s ping o).1)
      by_open none = by_wait (wait_for ping 10 0 none).error
      by_open (some e) = gave_up

  -- From a database whose rows are linked, an empty one for instance, the master starts with the rows
  -- linked, if it gets to listen; and whatever requests, agents and browsers do then, in any order
  -- and whatever statements fail, each server keeps its agent, its game and its mode, and each config
  -- its server, as long as no agent's leaving and no browser blocks or panics for good.
  pub master_run-Linked :
      (address : String) (w : World) (es : List MasterEvent)
      → start_master env fault faults open_url ping s ≡ listens address w
      → LinkedWorld (master_run es w)
  master_run-Linked address w es e =
      run-Linked es w (from_start address w (subst LinkedStart e start-Linked))
    where
      from_start : (address : String) (w : World) → LinkedStart (listens address w) → Linked w.db
      from_start address w (started _ _ k) = k
