-- ===== src/Connections/Tests.antt =====
-- Concrete sessions of browsers and agents.
use game_server_manager.Base.{
  ◌≡◌, refl, true, false, none, some, [], ◌∷◌, arith, lookup, string_key, nat_key, ap, inl, inr,
  List,
}
use game_server_manager.Protocol.{not_envelope, unknown_type, message, register, heartbeat}
use game_server_manager.Hub.{Hub, done, new_chan}
use game_server_manager.Connections.Writer.{Turn, puts, closes, takes, ticks, writer_turns}
use game_server_manager.Connections.Order.{
  Accounted, new_writer, put_by, lost_by, writer_turns-Accounted,
}
use game_server_manager.Connections.Browser.{handle_ui_ws}
use game_server_manager.Connections.Relayed.{Got, handle_ui_ws_relays}
use game_server_manager.Connections.Sessions.{Incoming, agent_session}
use game_server_manager.Connections.Reading.{Ends}
use game_server_manager.Connections.Closed.{agent_session-Ends}
use game_server_manager.Samples.{sample_hub, sample_world, lan_register, no_faults}

-- A write fails after a ping and one message.
abbrev failing_turns : List Turn
failing_turns =
    ticks true
    ∷ puts not_envelope
    ∷ takes true
    ∷ puts (unknown_type "x")
    ∷ takes false
    ∷ closes
    ∷ puts not_envelope
    ∷ []

writer_turns-Accounted_example :
    Accounted
      (not_envelope ∷ not_envelope ∷ unknown_type "x" ∷ [])
      (lost_by failing_turns (new_writer (not_envelope ∷ [])))
      (writer_turns failing_turns (new_writer (not_envelope ∷ [])))
unfolding put_by
writer_turns-Accounted_example = writer_turns-Accounted failing_turns (not_envelope ∷ [])

handle_ui_ws_relays_example :
    (h' : Hub) × (handle_ui_ws true 30 (not_envelope ∷ unknown_type "x" ∷ []) sample_hub ≡ done h')
    × Got (not_envelope ∷ unknown_type "x" ∷ []) sample_hub.agents sample_hub.channels h'.channels
    × (lookup 30 h'.ui_clients ≡ none)
    × (h'.closed_conns ≡ 30 ∷ [])
    × (h'.agents ≡ sample_hub.agents)
unfolding lookup
handle_ui_ws_relays_example =
    handle_ui_ws_relays 30 (not_envelope ∷ unknown_type "x" ∷ []) sample_hub (
      record { chan = new_chan; there = refl; open_ = refl; room = omega arith },
      (λ m b has. absurd has),
      tt,
    )

-- The agent lan connects again with its token, sends a heartbeat and goes away.
abbrev short_session : Incoming
short_session = record {
  first = some (message (register lan_register));
  following = (no_faults, message (heartbeat (record { agent_name = "lan" }))) ∷ [];
}

agent_session-Ends_example :
    Ends 40 (agent_session no_faults no_faults true 40 short_session sample_world)
agent_session-Ends_example =
    agent_session-Ends no_faults no_faults 40 short_session sample_world (record {
      agents = λ m a has. elim has [
        | inl same ↦ λ e. absurd (omega (arith, ap (λ x. x.1.conn) same))
        | inr h ↦ absurd h
      ];
      pending = λ m p has. elim has [
        | inl same ↦ λ e. absurd (omega (arith, ap (λ x. x.1.conn) same))
        | inr h ↦ absurd h
      ];
    })
