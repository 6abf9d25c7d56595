-- ===== src/AgentProcess/LoopTests.antt =====
-- Concrete runs of an agent's loops.
use game_server_manager.Base.{◌≡◌, refl, false, none, [], ◌∷◌, All, inl, List, String}
use game_server_manager.Base.Int.{pos}
use game_server_manager.Protocol.{message, register, log_line, StreamLogsPayload}
use game_server_manager.Docker.Streams.{stream_opens, stream_closes}
use game_server_manager.AgentProcess.{Agent, on_log_line, send_message}
use game_server_manager.AgentProcess.Lifecycle.{new_agent, connect, registration}
use game_server_manager.AgentProcess.Steps.{stays}
use game_server_manager.AgentProcess.Scanner.{without_cr, scan_from}
use game_server_manager.AgentProcess.LogStreams.{
  handle_stream_logs, stream_logs, each_line, line_messages, lines_of, IsStreamed,
  handle_stream_logs-IsStreamed,
}
use game_server_manager.AgentProcess.MainLoop.{
  Process, sleep_5, after_session, MainRuns, begins, no_session, one_session, StillBeats,
  WithFirstToken, MainRuns-leaks,
}
use game_server_manager.AgentProcess.Tests.{daemon, idle, lan_config, no_floats, reads_host}

abbrev match_logs : StreamLogsPayload
match_logs = record { server_id = pos 1; container_name = "lanmaster-match" }

handle_stream_logs-IsStreamed_example :
    IsStreamed
      (pos 1)
      (line_messages
        (pos 1)
        (λ n. "now")
        0
        (lines_of daemon "lanmaster-match" ("lanmaster-match" ∷ [])))
      idle
      (handle_stream_logs daemon (λ n. "now") match_logs idle)
handle_stream_logs-IsStreamed_example =
    handle_stream_logs-IsStreamed daemon (λ n. "now") match_logs idle refl

-- Two of the ten bytes of the second line are its text.
two_lines :
    (handle_stream_logs daemon (λ n. "now") match_logs idle).send
    ≡ message (log_line (record { server_id = pos 1; line = 1 ∷ 2 ∷ []; time = "now" }))
      ∷ message (log_line (record { server_id = pos 1; line = 72 ∷ 105 ∷ []; time = "now" }))
      ∷ []
unfolding handle_stream_logs stream_logs each_line on_log_line send_message stream_opens
    stream_closes scan_from without_cr
two_lines = refl

abbrev MatchRuns : Process (List String) → Process (List String) → Type 0
MatchRuns = MainRuns daemon "bridge" (λ addr. none) (λ text. []) (λ e. "rcon") no_floats lan_config

abbrev at_start : Process (List String)
at_start = record { docker = []; token_file = none; registrations = []; former = []; slept = 0 }

abbrev lan_agent : Agent (List String)
lan_agent = new_agent lan_config [] none

-- The master cannot be reached at first; then there is a connection, in which nothing happens.
abbrev at_end : Process (List String)
at_end = sleep_5 (
    after_session (message (register (registration lan_config reads_host lan_agent))) lan_agent
      (sleep_5 at_start))

two_rounds : MatchRuns at_start at_end
unfolding connect new_agent
two_rounds =
    one_session at_start (sleep_5 at_start) reads_host _ lan_agent lan_agent
      (no_session at_start at_start false false reads_host (begins at_start) (inl refl)) refl
      (stays lan_agent)

MainRuns-leaks_example :
    All
      (StillBeats daemon "bridge" (λ addr. none) (λ text. []) (λ e. "rcon") no_floats lan_config)
      at_end.former
    × All
        (WithFirstToken daemon "bridge"
          (λ addr. none)
          (λ text. [])
          (λ e. "rcon")
          no_floats
          lan_config)
        at_end.registrations
MainRuns-leaks_example =
    MainRuns-leaks daemon "bridge" (λ addr. none) (λ text. []) (λ e. "rcon") no_floats lan_config
      at_start at_end refl refl two_rounds
