-- ===== src/AgentProcess/Steps.antt =====
-- The goroutines of an agent as steps on the state they share: its reader's handlers, the callback
-- of a log stream, the two loops and the writer (agent/agent.go, agent/metrics.go).
use game_server_manager.Base.{◌≡◌, Bool, Option, ◌∷◌, List, String}
use game_server_manager.Base.Int.{ℤ}
use game_server_manager.Protocol.{Frame}
use game_server_manager.Hub.{done}
use game_server_manager.Rcon.{Bytes}
use game_server_manager.Rcon.Session.{Peer, RconError}
use game_server_manager.Docker.{Client}
use game_server_manager.AgentProcess.{Agent, on_log_line, handle_message}
use game_server_manager.AgentProcess.Metrics.{Float64, Measured, collect_and_send_metrics}
use game_server_manager.AgentProcess.Lifecycle.{Config, goes_on, heartbeat_tick, metrics_tick}

module _ {S : Type 0} (client : Client S) (network : String) (dial : String → Option Peer)
    (utf8 : String → Bytes) (error_text : RconError → String) where
  module _ (f : Float64) (cfg : Config) where
    -- What one goroutine does at a time, short of Stop, which the process calls just before it exits.
    -- The writer's select takes the first message of the channel.
    pub data Step : Agent S → Agent S → Type 0 where
      handles :
          (written : Bool) (frame : Frame) (a b : Agent S)
          → handle_message client network dial utf8 error_text written frame a ≡ done b
          → Step a b
      logs :
          (id : ℤ) (line : Bytes) (time : String) (a : Agent S)
          → Step a (on_log_line id line time a)
      beats : (a b : Agent S) → heartbeat_tick cfg a ≡ goes_on b → Step a b
      measures : (m : Measured) (a b : Agent S) → metrics_tick f cfg m a ≡ goes_on b → Step a b
      measures_now :
          (m : Measured) (a : Agent S) → Step a (collect_and_send_metrics f cfg.agent_name m a)
      writes :
          (m : Frame) (rest : List Frame) (a : Agent S)
          → a.send ≡ m ∷ rest
          → Step a (record a { send = rest })

    pub data Run : Agent S → Agent S → Type 0 where
      stays : (a : Agent S) → Run a a
      then_steps : (a b c : Agent S) → Run a b → Step b c → Run a c
