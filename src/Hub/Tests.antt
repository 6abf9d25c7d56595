-- ===== src/Hub/Tests.antt =====
-- Concrete runs of the hub.
use game_server_manager.Base.{
  ℕ, ◌≡◌, ◌≢◌, refl, true, false, some, List, [], ◌∷◌, String, arith, lookup, string_key, nat_key,
  replicate,
}
use game_server_manager.Base.Int.{pos}
use game_server_manager.Protocol.{not_envelope, MetricsPayload}
use game_server_manager.Hub.{
  Hub, AgentConnection, new_chan, done, panics, send_to_agent, on_ui_message, on_register_agent,
  on_unregister_agent, get_metrics_history,
}
use game_server_manager.Hub.Lifecycle.{Event, connects, disconnects, sends, run, start}
use game_server_manager.Hub.Lifecycle.Safety.{run-ne-panics}
use game_server_manager.Hub.Metrics.{store_all, store_all-history}
use game_server_manager.Hub.Delivery.{stale_unregister_drops_new}
use game_server_manager.Hub.Blocking.{stuck_channel_stops_hub}
use game_server_manager.Samples.{sample_hub, lan_conn}

-- An agent reconnects before its old connection is cleaned up.
abbrev reconnect : List Event
reconnect =
    connects (pos 1) "lan" 10
    ∷ connects (pos 1) "lan" 20
    ∷ disconnects 0
    ∷ sends "lan" not_envelope
    ∷ disconnects 1
    ∷ []

run-ne-panics_example : run reconnect start ≢ panics
run-ne-panics_example = run-ne-panics reconnect

abbrev lan_again : AgentConnection
lan_again = record lan_conn { conn = 20; send = 1 }

abbrev two_channels : Hub
two_channels = record sample_hub { channels = (0, new_chan) ∷ (1, new_chan) ∷ [] }

stale_unregister_drops_new_example :
    (h' : Hub) × (on_unregister_agent lan_conn (on_register_agent lan_again two_channels) ≡ done h')
    × (send_to_agent "lan" not_envelope h' ≡ done (h', false))
    × (lookup 1 h'.channels ≡ some new_chan)
unfolding lookup
stale_unregister_drops_new_example =
    stale_unregister_drops_new lan_conn lan_again two_channels new_chan new_chan not_envelope refl
      (omega arith) refl refl refl

abbrev report : ℕ → MetricsPayload
report t = record {
  agent_name = "lan";
  cpu_percent = t;
  mem_used_mb = 1;
  mem_total_mb = 2;
  disk_used_gb = 3;
  disk_total_gb = 4;
  containers = [];
  timestamp = "";
}

abbrev reports : List (String × MetricsPayload)
reports = ("lan", report 1) ∷ ("other", report 2) ∷ ("lan", report 3) ∷ []

store_all-history_example :
    get_metrics_history "lan" (store_all reports sample_hub) ≡ report 1 ∷ report 3 ∷ []
unfolding get_metrics_history lookup
store_all-history_example = store_all-history reports "lan" sample_hub refl

abbrev full_hub : Hub
full_hub = record sample_hub {
  channels = (0, record { buffer = replicate 256 not_envelope; closed = false }) ∷ [];
}

stuck_channel_stops_hub_example :
    (on_ui_message not_envelope full_hub ≢ done full_hub)
    × (send_to_agent "lan" not_envelope full_hub ≢ done (full_hub, true))
unfolding lookup
stuck_channel_stops_hub_example =
    stuck_channel_stops_hub "lan" lan_conn not_envelope full_hub full_hub true refl (record {
      chan = record { buffer = replicate 256 not_envelope; closed = false };
      there = refl;
      open_ = refl;
      no_room = omega arith;
    })
