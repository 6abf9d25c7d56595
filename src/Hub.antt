-- ===== src/Hub.antt =====
-- master/main.go: the hub, which knows the connected agents, the browsers and the pending agents,
-- relays messages and keeps the metrics. A websocket connection is a number; an agent's Send channel
-- is a number too, under which the hub's record holds the channel. The mutex makes each operation
-- one step.
pub mod Metrics
pub mod Lifecycle
pub mod Delivery
pub mod Blocking
mod Tests
use game_server_manager.Base.{
  ℕ, ◌+◌, ◌-◌, Bool, true, false, Option, none, some, List, [], ◌∷◌, ◌++◌, String, if◌then◌else◌,
  ltb, length, drop, lookup, insert, delete, map, is_some, nat_key, string_key,
}
use game_server_manager.Base.Int.{ℤ}
use game_server_manager.Protocol.{Frame, HostInfo, MetricsPayload}

pub record AgentConnection : Type 0 where
  pub agent_id : ℤ
  pub agent_name : String
  pub conn : ℕ
  pub send : ℕ

pub record PendingAgent : Type 0 where
  pub name : String
  pub conn : ℕ
  pub info : HostInfo

-- A buffered Go channel.
pub record Chan : Type 0 where
  pub buffer : List Frame
  pub closed : Bool

pub record Hub : Type 0 where
  pub agents : List (String × AgentConnection)
  pub ui_clients : List (ℕ × Bool)
  pub pending_agents : List (String × PendingAgent)
  pub latest_metrics : List (String × MetricsPayload)
  pub metrics_history : List (String × List MetricsPayload)
  pub channels : List (ℕ × Chan)
  pub closed_conns : List ℕ
  pub conn_writes : List (ℕ × Frame)

-- What running Go code does: it goes on, waits for ever, or panics.
pub data Effect {ℓ} (A : Type ℓ) : Type ℓ where
  done : A → Effect A
  blocks panics : Effect A

infixl 5 ◌>>=◌
abbrev pub ◌>>=◌ {ℓ κ} : {A : Type ℓ} {B : Type κ} → Effect A → (A → Effect B) → Effect B
done a >>= f = f a
blocks >>= f = blocks
panics >>= f = panics

-- make(chan []byte, 256)
abbrev pub send_capacity : ℕ
send_capacity = 256

abbrev pub new_chan : Chan
new_chan = record { buffer = []; closed = false }

-- ch <- f on the channel that stands under the number, if one does (a nil channel blocks).
abbrev pub push_chan : Frame → Option Chan → Effect Chan
push_chan f none = blocks
push_chan f (some c) =
    if c.closed
    then panics
    else if ltb (length c.buffer) send_capacity
    then done (record c { buffer = c.buffer ++ f ∷ [] })
    else blocks

unfoldable pub send_chan : ℕ → Frame → Hub → Effect Hub
send_chan ref f h = do
  c ← push_chan f (lookup ref h.channels)
  done (record h { channels = insert ref c h.channels })

abbrev pub shut : Option Chan → Effect Chan
shut none = panics
shut (some c) = if c.closed then panics else done (record c { closed = true })

-- close(ch)
unfoldable pub close_chan : ℕ → Hub → Effect Hub
close_chan ref h = do
  c ← shut (lookup ref h.channels)
  done (record h { channels = insert ref c h.channels })

unfoldable pub new_hub : Hub
new_hub = record {
  agents = [];
  ui_clients = [];
  pending_agents = [];
  latest_metrics = [];
  metrics_history = [];
  channels = [];
  closed_conns = [];
  conn_writes = [];
}

-- The cases of the select in Hub.Run.
unfoldable pub on_register_agent : AgentConnection → Hub → Hub
on_register_agent agent h = record h { agents = insert agent.agent_name agent h.agents }

abbrev pub drop_agent : AgentConnection → Option AgentConnection → Hub → Effect Hub
drop_agent agent none h = done h
drop_agent agent (some _) h =
    close_chan agent.send (record h { agents = delete agent.agent_name h.agents })

unfoldable pub on_unregister_agent : AgentConnection → Hub → Effect Hub
on_unregister_agent agent h = drop_agent agent (lookup agent.agent_name h.agents) h

unfoldable pub on_register_ui : ℕ → Hub → Hub
on_register_ui conn h = record h { ui_clients = insert conn true h.ui_clients }

unfoldable pub on_unregister_ui : ℕ → Hub → Hub
on_unregister_ui conn h =
    if is_some (lookup conn h.ui_clients)
    then record h { ui_clients = delete conn h.ui_clients; closed_conns = conn ∷ h.closed_conns }
    else h

-- A failed write is logged and changes nothing: `conn_writes` lists the text frames that the master
-- tries to write to a connection, past any Send channel.
unfoldable pub broadcast_to_ui : Frame → Hub → Hub
broadcast_to_ui f h = record h { conn_writes = h.conn_writes ++ map (λ e. (e.0, f)) h.ui_clients }

unfoldable pub on_agent_message : Frame → Hub → Hub
unfolding broadcast_to_ui
on_agent_message f h = broadcast_to_ui f h

abbrev pub send_all : List (String × AgentConnection) → Frame → Hub → Effect Hub
send_all [] f h = done h
send_all ((_, agent) ∷ agents) f h = send_chan agent.send f h >>= λ h'. send_all agents f h'

unfoldable pub on_ui_message : Frame → Hub → Effect Hub
on_ui_message f h = send_all h.agents f h

-- Hub.SendToAgent
abbrev pub send_to : Option AgentConnection → Frame → Hub → Effect (Hub × Bool)
send_to none f h = done (h, false)
send_to (some agent) f h = send_chan agent.send f h >>= λ h'. done (h', true)

unfoldable pub send_to_agent : String → Frame → Hub → Effect (Hub × Bool)
send_to_agent name f h = send_to (lookup name h.agents) f h

abbrev pub or_empty {ℓ} : {A : Type ℓ} → Option (List A) → List A
or_empty none = []
or_empty (some xs) = xs

-- if len(history) > 30 { history = history[len(history)-30:] }
abbrev pub keep_last_30 : List MetricsPayload → List MetricsPayload
keep_last_30 history =
    if ltb 30 (length history) then drop (length history - 30) history else history

-- Hub.StoreMetrics
unfoldable pub store_metrics : String → MetricsPayload → Hub → Hub
store_metrics name m h = record h {
  latest_metrics = insert name m h.latest_metrics;
  metrics_history =
      insert name (keep_last_30 (or_empty (lookup name h.metrics_history) ++ m ∷ []))
        h.metrics_history;
}

-- Hub.GetMetricsHistory
unfoldable pub get_metrics_history : String → Hub → List MetricsPayload
get_metrics_history name h = or_empty (lookup name h.metrics_history)

-- Hub.AddPending and Hub.RemovePending
unfoldable pub add_pending : PendingAgent → Hub → Hub
add_pending p h = record h { pending_agents = insert p.name p h.pending_agents }

unfoldable pub remove_pending : String → Hub → Hub
remove_pending name h = record h { pending_agents = delete name h.pending_agents }
