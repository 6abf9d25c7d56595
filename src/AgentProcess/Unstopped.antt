-- ===== src/AgentProcess/Unstopped.antt =====
-- Only Stop stops an agent: what its other goroutines do keeps it as it is (agent/agent.go,
-- agent/metrics.go).
use game_server_manager.Base.{
  ◌≡◌, refl, ap, sym, ◌∙◌, Bool, true, false, Option, String, if◌then◌else◌, choose,
}
use game_server_manager.Protocol.{
  Frame, message, bad_payload, unknown_type, not_envelope, Message, start_server, stop_server,
  delete_server, rcon_command, stream_logs_start, stream_logs_stop, register, heartbeat,
  server_status, log_line, rcon_response, approved, metrics, request_metrics, RconCommandPayload,
}
use game_server_manager.Hub.{done}
use game_server_manager.Rcon.{Bytes}
use game_server_manager.Rcon.Session.{Peer, RconError, Outcome, returned, failed, panicked}
use game_server_manager.Docker.{Client}
use game_server_manager.AgentProcess.{
  Agent, send_message, on_log_line, handle_message, handle_start_server, handle_stop_server,
  handle_delete_server, handle_rcon, rcon_ended,
}
use game_server_manager.AgentProcess.Metrics.{Float64, collect_and_send_metrics}
use game_server_manager.AgentProcess.Lifecycle.{
  Config, goes_on, returns, heartbeat_tick, metrics_tick,
}
use game_server_manager.AgentProcess.Steps.{
  Step, handles, logs, beats, measures, measures_now, writes, Run, stays, then_steps,
}

abbrev Alike : {S : Type 0} → Agent S → Agent S → Type 0
Alike a b = b.stopped ≡ a.stopped

send_message-stopped :
    {S : Type 0} (m : Message) (a : Agent S) → (send_message m a).stopped ≡ a.stopped
unfolding send_message
send_message-stopped m a = choose (Alike a) a.stopped refl (choose (Alike a) _ refl refl)

goes_on-injective : {S : Type 0} (a b : Agent S) → goes_on a ≡ goes_on b → a ≡ b
goes_on-injective a b h = cc

pub done-injective : {A : Type 0} (a b : A) → done a ≡ done b → a ≡ b
done-injective a b h = cc

module _ {S : Type 0} (client : Client S) (network : String) (dial : String → Option Peer)
    (utf8 : String → Bytes) (error_text : RconError → String) where
  to_done : (a b c : Agent S) → Alike a b → done b ≡ done c → Alike a c
  to_done a b c h k = ap (λ (x : Agent S). x.stopped) (sym (done-injective b c k)) ∙ h

  handle_message-stopped :
      (written : Bool) (frame : Frame) (a b : Agent S)
      → handle_message client network dial utf8 error_text written frame a ≡ done b
      → Alike a b
  unfolding handle_message handle_start_server handle_stop_server handle_delete_server handle_rcon
  handle_message-stopped written (message (start_server p)) a b h =
      to_done a _ b (send_message-stopped _ _) h
  handle_message-stopped written (message (stop_server p)) a b h =
      to_done a _ b (send_message-stopped _ _) h
  handle_message-stopped written (message (delete_server p)) a b h =
      to_done a _ b (send_message-stopped _ _) h
  handle_message-stopped written (message (rcon_command p)) a b h = ended p _ h
    where
      ended :
          (p : RconCommandPayload) (o : Outcome)
          → rcon_ended client network dial utf8 error_text p o a ≡ done b
          → Alike a b
      ended p (returned response) k = to_done a _ b (send_message-stopped _ a) k
      ended p (failed e) k = to_done a _ b (send_message-stopped _ a) k
      ended p panicked k = absurd (cc)
  handle_message-stopped written (message (stream_logs_start p)) a b h = to_done a _ b refl h
  handle_message-stopped written (message (stream_logs_stop p)) a b h = to_done a _ b refl h
  handle_message-stopped written (message (approved p)) a b h = to_done a _ b refl h
  handle_message-stopped written (message (register p)) a b h = to_done a _ b refl h
  handle_message-stopped written (message (heartbeat p)) a b h = to_done a _ b refl h
  handle_message-stopped written (message (server_status p)) a b h = to_done a _ b refl h
  handle_message-stopped written (message (log_line p)) a b h = to_done a _ b refl h
  handle_message-stopped written (message (rcon_response p)) a b h = to_done a _ b refl h
  handle_message-stopped written (message (metrics p)) a b h = to_done a _ b refl h
  handle_message-stopped written (message request_metrics) a b h = to_done a _ b refl h
  handle_message-stopped written (bad_payload type) a b h = to_done a _ b refl h
  handle_message-stopped written (unknown_type type) a b h = to_done a _ b refl h
  handle_message-stopped written not_envelope a b h = to_done a _ b refl h

  module _ (f : Float64) (cfg : Config) where
    ticked-stopped :
        (m : Message) (a b : Agent S)
        → (if a.stopped then returns a else goes_on (send_message m a)) ≡ goes_on b
        → Alike a b
    ticked-stopped m a b h = tested a.stopped h
      where
        tested :
            (stopped : Bool)
            → (if stopped then returns a else goes_on (send_message m a)) ≡ goes_on b
            → Alike a b
        tested true k = absurd (cc)
        tested false k =
            ap (λ (x : Agent S). x.stopped) (sym (goes_on-injective _ b k))
            ∙ send_message-stopped m a

    Step-stopped : (a b : Agent S) → Step client network dial utf8 error_text f cfg a b → Alike a b
    unfolding on_log_line collect_and_send_metrics heartbeat_tick metrics_tick
    Step-stopped _ _ (handles written frame a b h) = handle_message-stopped written frame a b h
    Step-stopped _ _ (logs id line time a) = send_message-stopped _ a
    Step-stopped _ _ (beats a b h) = ticked-stopped _ a b h
    Step-stopped _ _ (measures m a b h) = ticked-stopped _ a b h
    Step-stopped _ _ (measures_now m a) = send_message-stopped _ a
    Step-stopped _ _ (writes m rest a h) = refl

    -- Whatever an agent's goroutines do short of Stop, it is stopped afterwards just if it was.
    pub Run-stopped :
        (a b : Agent S) → Run client network dial utf8 error_text f cfg a b → b.stopped ≡ a.stopped
    Run-stopped _ _ (stays a) = refl
    Run-stopped _ _ (then_steps a b c r h) = Step-stopped b c h ∙ Run-stopped a b r
