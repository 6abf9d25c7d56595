-- ===== src/AgentProcess/MainLoop.antt =====
-- The loop of the agent's main (agent/main.go): one connection after the other, each with a new Agent.
-- When a connection ends, only its reader and its writer return; the loops for heartbeats and metrics
-- are ended by Stop alone, which the signal handler calls just before the process exits.
use game_server_manager.Base.{
  ℕ, ◌+◌, ◌∙◌, ◌≡◌, ◌⊎◌, ap, sym, Bool, true, false, Option, List, [], ◌∷◌, String, All,
  if◌then◌else◌,
}
use game_server_manager.Protocol.{Frame, message, register, heartbeat}
use game_server_manager.Rcon.{Bytes}
use game_server_manager.Rcon.Session.{Peer, RconError}
use game_server_manager.Docker.{Client}
use game_server_manager.AgentProcess.{Agent, send_message}
use game_server_manager.AgentProcess.Metrics.{Float64, Measured, collect_and_send_metrics}
use game_server_manager.AgentProcess.Lifecycle.{
  Config, new_agent, HostMeasured, get_host_info, connect, registration, no_dial, no_register,
  session, goes_on, returns, heartbeat_tick, metrics_tick,
}
use game_server_manager.AgentProcess.Steps.{Run}
use game_server_manager.AgentProcess.Unstopped.{Run-stopped}

-- The process between two connections: what outlives an Agent, the first messages of its connections,
-- the newest first, and the Agents whose two loops were started.
pub record Process (S : Type 0) : Type 0 where
  pub docker : S
  pub token_file : Option String
  pub registrations : List Frame
  pub former : List (Agent S)
  -- seconds of sleep between connections
  pub slept : ℕ

abbrev pub next_agent : {S : Type 0} → Config → Process S → Agent S
next_agent cfg p = new_agent cfg p.docker p.token_file

abbrev pub sleep_5 : {S : Type 0} → Process S → Process S
sleep_5 p = record p { slept = p.slept + 5 }

abbrev pub after_session : {S : Type 0} → Frame → Agent S → Process S → Process S
after_session first b p = record p {
  docker = b.docker;
  token_file = b.token_file;
  registrations = first ∷ p.registrations;
  former = b ∷ p.former;
}

session-injective : {S : Type 0} (x y : Frame) (a b : Agent S) → session x a ≡ session y b → x ≡ y
session-injective x y a b h = cc

session-agent : {S : Type 0} (x y : Frame) (a b : Agent S) → session x a ≡ session y b → a ≡ b
session-agent x y a b h = cc

module _ {S : Type 0} (client : Client S) (network : String) (dial : String → Option Peer)
    (utf8 : String → Bytes) (error_text : RconError → String) (f : Float64) (cfg : Config) where
  -- The rounds of main's loop. A session is any run of the new Agent's goroutines; its end closes the
  -- connection and changes nothing that the Agent holds. Stop is not among its steps: the process
  -- exits right after it.
  pub data MainRuns : Process S → Process S → Type 0 where
    begins : (p : Process S) → MainRuns p p
    no_session :
        (p q : Process S) (dialled wrote : Bool) (host : HostMeasured)
        → MainRuns p q
        → (connect dialled wrote cfg host (next_agent cfg q) ≡ no_dial)
          ⊎ (connect dialled wrote cfg host (next_agent cfg q) ≡ no_register)
        → MainRuns p (sleep_5 q)
    one_session :
        (p q : Process S) (host : HostMeasured) (first : Frame) (a b : Agent S)
        → MainRuns p q
        → connect true true cfg host (next_agent cfg q) ≡ session first a
        → Run client network dial utf8 error_text f cfg a b
        → MainRuns p (sleep_5 (after_session first b q))

  -- The loops of a former Agent go on.
  abbrev pub StillBeats : Agent S → Type 0
  StillBeats a =
      (heartbeat_tick cfg a
        ≡ goes_on (send_message (heartbeat (record { agent_name = cfg.agent_name })) a))
      × ((m : Measured)
          → metrics_tick f cfg m a ≡ goes_on (collect_and_send_metrics f cfg.agent_name m a))

  -- A registration with the token that the process had at its start.
  abbrev pub WithFirstToken : Frame → Type 0
  WithFirstToken frame =
      (host : HostMeasured) × (frame
        ≡ message (
            register (record {
              agent_name = cfg.agent_name;
              token = cfg.token;
              host_info = get_host_info host;
            })))

  -- However often the process has reconnected, and whatever happened in its connections: the loops of
  -- every former connection still go on at their ticks, and each registration bears the token of the
  -- process's start, also after an approval told it another one.
  pub MainRuns-leaks :
      (p q : Process S)
      → p.former ≡ []
      → p.registrations ≡ []
      → MainRuns p q
      → All StillBeats q.former × All WithFirstToken q.registrations
  unfolding heartbeat_tick metrics_tick connect registration new_agent
  MainRuns-leaks _ _ none_yet unregistered (begins p) = rw (none_yet, unregistered) (tt, tt)
  MainRuns-leaks p _ none_yet unregistered (no_session _ q dialled wrote host runs _) =
      MainRuns-leaks p q none_yet unregistered runs
  MainRuns-leaks p _ none_yet unregistered (one_session _ q host first a b runs opened ran) =
      let running : b.stopped ≡ false =
        Run-stopped client network dial utf8 error_text f cfg a b ran
        ∙ ap (λ (x : Agent S). x.stopped)
            (sym (session-agent _ first (next_agent cfg q) a opened)) in
      let (beats, tokens) = MainRuns-leaks p q none_yet unregistered runs in
      (
        (
          (
            ap
                (λ stopped.
                  if stopped
                  then returns b
                  else goes_on
                      (send_message (heartbeat (record { agent_name = cfg.agent_name })) b))
                running,
            λ m.
                ap
                  (λ stopped.
                    if stopped
                    then returns b
                    else goes_on (collect_and_send_metrics f cfg.agent_name m b))
                  running,
          ),
          beats,
        ),
        ((host, session-injective first _ a _ (sym opened)), tokens),
      )
