-- ===== src/Hub/Delivery.antt =====
-- Who a message reaches: SendToAgent, the relay to browsers, and a reconnect that meets the cleanup
-- of the connection before it (master/main.go Run, SendToAgent; master/websocket.go agentReader).
use game_server_manager.Base.{
  ℕ, ◌<◌, ◌≡◌, ◌≢◌, refl, ◌∙◌, true, false, none, some, [], ◌∷◌, ◌++◌, String, arith, ltb, nat_eq,
  str_eq, length, lookup, insert, delete, lookup-insert, lookup-delete, nat_key, string_key,
  eq_refl,
}
use game_server_manager.Protocol.{Frame}
use game_server_manager.Hub.{
  Hub, AgentConnection, Chan, done, send_chan, close_chan, push_chan, on_register_agent,
  on_unregister_agent, drop_agent, shut, send_to, send_to_agent, send_capacity,
}

-- SendToAgent to a connected agent with room in its channel: it answers true, the frame is the last
-- of that agent's channel, every other channel and the set of agents are as they were.
pub send_to_agent-delivers :
    (name : String) (f : Frame) (h : Hub) (a : AgentConnection) (c : Chan)
    → lookup name h.agents ≡ some a
    → lookup a.send h.channels ≡ some c
    → c.closed ≡ false
    → length c.buffer < send_capacity
    → (h' : Hub) × (send_to_agent name f h ≡ done (h', true))
      × (lookup a.send h'.channels ≡ some (record { buffer = c.buffer ++ f ∷ []; closed = false }))
      × ((r : ℕ) → r ≢ a.send → lookup r h'.channels ≡ lookup r h.channels)
      × (h'.agents ≡ h.agents)
unfolding send_to_agent send_chan
send_to_agent-delivers name f h a c found chan open_ room =
    let c' : Chan = record { buffer = c.buffer ++ f ∷ []; closed = false } in
    let fits : ltb (length c.buffer) 256 ≡ true = ground arith in
    let same : nat_eq a.send a.send ≡ true = ground arith in
    (
      record h { channels = insert a.send c' h.channels },
      rw (found, send_to, chan, push_chan, open_, fits) refl,
      lookup-insert a.send a.send c' h.channels ∙ rw same refl,
      λ r differ.
          let other : nat_eq a.send r ≡ false = ground arith in
          lookup-insert a.send r c' h.channels ∙ rw other refl,
      refl,
    )

-- SendToAgent to an agent that is not connected answers false and changes nothing.
pub send_to_agent_unknown :
    (name : String) (f : Frame) (h : Hub)
    → lookup name h.agents ≡ none
    → send_to_agent name f h ≡ done (h, false)
unfolding send_to_agent
send_to_agent_unknown name f h gone = rw (gone, send_to) refl

-- An agent reconnects under its name before the hub has unregistered its old connection. The old
-- connection's cleanup then removes the new one: whatever is sent to the agent from there on is
-- refused, although the new connection's channel still exists and is open.
pub stale_unregister_drops_new :
    (old new : AgentConnection) (h : Hub) (c d : Chan) (f : Frame)
    → old.agent_name ≡ new.agent_name
    → old.send ≢ new.send
    → lookup old.send h.channels ≡ some c
    → c.closed ≡ false
    → lookup new.send h.channels ≡ some d
    → (h' : Hub) × (on_unregister_agent old (on_register_agent new h) ≡ done h')
      × (send_to_agent new.agent_name f h' ≡ done (h', false))
      × (lookup new.send h'.channels ≡ some d)
unfolding on_unregister_agent on_register_agent close_chan
stale_unregister_drops_new old new h c d f named differ at open_ newer =
    let mine : str_eq new.agent_name new.agent_name ≡ true = eq_refl new.agent_name in
    let there : lookup old.agent_name (insert new.agent_name new h.agents) ≡ some new =
      rw named (lookup-insert new.agent_name new.agent_name new h.agents ∙ rw mine refl) in
    let agents = delete old.agent_name (insert new.agent_name new h.agents) in
    let gone : lookup new.agent_name agents ≡ none =
      lookup-delete old.agent_name new.agent_name (insert new.agent_name new h.agents)
      ∙ rw (named, mine) refl in
    let other : nat_eq old.send new.send ≡ false = ground arith in
    let h' : Hub = record h {
      agents = agents;
      channels = insert old.send (record { buffer = c.buffer; closed = true }) h.channels;
    } in
    (
      h',
      rw (there, drop_agent, at, shut, open_) refl,
      send_to_agent_unknown new.agent_name f h' gone,
      lookup-insert old.send new.send (record { buffer = c.buffer; closed = true }) h.channels
          ∙ rw other newer,
    )
