-- ===== src/Hub/Lifecycle.antt =====
-- Connections coming and going (master/main.go Run, master/websocket.go agentReader, agentWriter):
-- the hub together with the agent connections whose reader still runs, as a step function over
-- events in any order. A new connection gets a channel of its own; its reader unregisters it once,
-- when it ends.
pub mod Open
pub mod Kept
pub mod Readers
pub mod Safety
use game_server_manager.Base.{
  ℕ, suc, ◌<◌, Bool, not, true, false, Option, none, some, List, [], ◌∷◌, String, nat_eq, lookup,
  insert, nat_key, string_key, keep, find,
}
use game_server_manager.Base.Int.{ℤ}
use game_server_manager.Protocol.{Frame, MetricsPayload}
use game_server_manager.Hub.{
  Hub, AgentConnection, PendingAgent, Chan, new_chan, new_hub, Effect, done, blocks, panics, ◌>>=◌,
  on_register_agent, on_unregister_agent, on_register_ui, on_unregister_ui, on_agent_message,
  on_ui_message, send_to_agent, store_metrics, add_pending, remove_pending, broadcast_to_ui,
}

pub record System : Type 0 where
  pub hub : Hub
  pub next : ℕ
  pub readers : List AgentConnection

pub data Event : Type 0 where
  -- an agent is accepted: make(chan), hub.RegisterAgent <- agent, agentReader starts
  connects : (agent_id : ℤ) (name : String) (conn : ℕ) → Event
  -- the reader of the connection with this channel ends: hub.UnregisterAgent <- agent
  disconnects : (send : ℕ) → Event
  -- its writer takes one message from the channel
  writes : (send : ℕ) → Event
  sends : (name : String) → Frame → Event
  ui_says agent_says broadcasts : Frame → Event
  ui_opens ui_closes : (conn : ℕ) → Event
  stores : (name : String) → MetricsPayload → Event
  pends : PendingAgent → Event
  unpends : (name : String) → Event

abbrev pub has_send : ℕ → AgentConnection → Bool
has_send ref a = nat_eq a.send ref

abbrev pub accept : ℤ → String → ℕ → System → System
accept agent_id name conn s = record {
  hub = on_register_agent agent (record s.hub { channels = insert s.next new_chan s.hub.channels });
  next = suc s.next;
  readers = agent ∷ s.readers;
}
  where
    agent : AgentConnection
    agent = record { agent_id = agent_id; agent_name = name; conn = conn; send = s.next }

abbrev pub with_hub : System → Hub → System
with_hub s h = record s { hub = h }

abbrev pub end_reader : System → Option AgentConnection → Effect System
end_reader s none = done s
end_reader s (some agent) = do
  h ← on_unregister_agent agent s.hub
  done (record s { hub = h; readers = keep (λ a. not (has_send agent.send a)) s.readers })

abbrev pub take_first : ℕ → Chan → List Frame → Hub → Hub
take_first ref c [] h = h
take_first ref c (_ ∷ rest) h = record h {
  channels = insert ref (record c { buffer = rest }) h.channels;
}

abbrev pub pop_chan : ℕ → Option Chan → Hub → Hub
pop_chan ref none h = h
pop_chan ref (some c) h = take_first ref c c.buffer h

unfoldable pub step : Event → System → Effect System
step (connects agent_id name conn) s = done (accept agent_id name conn s)
step (disconnects ref) s = end_reader s (find (has_send ref) s.readers)
step (writes ref) s = done (with_hub s (pop_chan ref (lookup ref s.hub.channels) s.hub))
step (sends name f) s = send_to_agent name f s.hub >>= λ r. done (with_hub s r.0)
step (ui_says f) s = on_ui_message f s.hub >>= λ h. done (with_hub s h)
step (agent_says f) s = done (with_hub s (on_agent_message f s.hub))
step (broadcasts f) s = done (with_hub s (broadcast_to_ui f s.hub))
step (ui_opens conn) s = done (with_hub s (on_register_ui conn s.hub))
step (ui_closes conn) s = done (with_hub s (on_unregister_ui conn s.hub))
step (stores name m) s = done (with_hub s (store_metrics name m s.hub))
step (pends p) s = done (with_hub s (add_pending p s.hub))
step (unpends name) s = done (with_hub s (remove_pending name s.hub))

unfoldable pub run : List Event → System → Effect System
run [] s = done s
run (e ∷ es) s = step e s >>= run es

unfoldable pub start : System
unfolding new_hub
start = record { hub = new_hub; next = 0; readers = [] }
