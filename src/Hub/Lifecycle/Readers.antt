-- ===== src/Hub/Lifecycle/Readers.antt =====
-- The invariant under a connection that is accepted, and under one whose reader ends.
use game_server_manager.Base.{
  ℕ, ◌≡◌, ◌≢◌, refl, ap, ◌∙◌, sym, inl, inr, not, true, false, some, List, String, arith, nat_eq,
  lookup, insert, lookup-insert, Has-insert, Has-delete, lookup-ne-none, nat_key, string_key, keep,
  Has, Has-keep, Has-of_keep, Bool-cases, Option-cases, nat_eq_iff,
}
use game_server_manager.Base.Int.{ℤ}
use game_server_manager.Hub.{
  AgentConnection, Chan, new_chan, close_chan, on_register_agent, on_unregister_agent, shut,
  drop_agent,
}
use game_server_manager.Hub.Lifecycle.{System, has_send, accept, end_reader}
use game_server_manager.Hub.Lifecycle.Open.{
  IsOpen, Inv, Holds, Below-keep, send_injective, IsOpen-insert, IsOpen-insert_ne,
}

pub accept-Inv :
    (s : System) (agent_id : ℤ) (name : String) (conn : ℕ)
    → Inv s
    → Inv (accept agent_id name conn s)
unfolding on_register_agent
accept-Inv s agent_id name conn v = record {
  registered = λ n a has. elim (Has-insert name agent s.hub.agents (n, a) has) [
    | inl e ↦ (
      ap (λ (x : String × AgentConnection). x.1.agent_name) e
          ∙ sym (ap (λ (x : String × AgentConnection). x.0) e),
      inl (ap (λ (x : String × AgentConnection). x.1) e),
    )
    | inr old ↦ ((v.registered n a old).0, inr (v.registered n a old).1)
  ];
  opened = λ a has. elim has [
    | inl e ↦
        rw e (new_chan, lookup-insert s.next s.next new_chan s.hub.channels ∙ rw here refl, refl)
    | inr old ↦ IsOpen-insert s.hub.channels s.next a.send new_chan refl (v.opened a old)
  ];
  fresh = (omega arith, v.fresh);
}
  where
    agent : AgentConnection
    agent = record { agent_id = agent_id; agent_name = name; conn = conn; send = s.next }

    here : nat_eq s.next s.next ≡ true
    here = ground arith

-- After the reader of `agent` ends, the other readers keep their open channels.
module _ (s : System) (v : Inv s) (agent : AgentConnection) (running : Has agent s.readers) where
  others : List AgentConnection
  others = keep (λ a. not (has_send agent.send a)) s.readers

  stays :
      (n : String) (a : AgentConnection)
      → Has (n, a) s.hub.agents
      → n ≢ agent.agent_name
      → (a.agent_name ≡ n) × Has a others
  unfolding others
  stays n a has differ =
      let (named, reads) = v.registered n a has in
      let apart : nat_eq a.send agent.send ≡ false = elim (Bool-cases (nat_eq a.send agent.send)) [
        | inl same ↦
            let one : a ≡ agent =
              send_injective s.next s.readers a agent v.fresh reads running
                ((nat_eq_iff a.send agent.send).0 same) in
            absurd (differ (sym named ∙ ap (λ (x : AgentConnection). x.agent_name) one))
        | inr e ↦ e
      ] in
      (named, Has-keep (λ b. not (has_send agent.send b)) a s.readers reads (rw apart refl))

  keeps_IsOpen :
      (c : Chan) (a : AgentConnection)
      → Has a others
      → IsOpen (insert agent.send c s.hub.channels) a.send
  unfolding others
  keeps_IsOpen c a has =
      let (reads, differ) = Has-of_keep (λ b. not (has_send agent.send b)) a s.readers has in
      IsOpen-insert_ne s.hub.channels agent.send a.send c (ground arith) (v.opened a reads)

  pub end_reader-Inv : Holds Inv (end_reader s (some agent))
  unfolding on_unregister_agent close_chan others
  end_reader-Inv = elim (Option-cases (lookup agent.agent_name s.hub.agents)) [
    | inl gone ↦
        rw (gone, drop_agent)
          record {
            registered = λ n a has. stays n a has λ e.
                lookup-ne-none n s.hub.agents a has
                  (ap (λ (k : String). lookup k s.hub.agents) e ∙ gone);
            opened = λ a has.
                v.opened a (Has-of_keep (λ b. not (has_send agent.send b)) a s.readers has).0;
            fresh = Below-keep agent.send s.next s.readers v.fresh;
          }
    | inr (b, found) ↦
        let (c, at, open_) = v.opened agent running in
        rw (found, drop_agent, at, shut, open_)
          record {
            registered = λ n a has.
                let (old, differ) = Has-delete agent.agent_name s.hub.agents (n, a) has in
                stays n a old differ;
            opened = λ a has. keeps_IsOpen (record c { closed = true }) a has;
            fresh = Below-keep agent.send s.next s.readers v.fresh;
          }
  ]
