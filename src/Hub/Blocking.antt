-- ===== src/Hub/Blocking.antt =====
-- Channels that nobody reads any more, because agentWriter has returned or its connection hangs
-- (master/main.go Run and SendToAgent).
use game_server_manager.Base.{
  ℕ, ◌≤◌, ◌≡◌, ◌≢◌, refl, ap, subst, ◌∙◌, inl, inr, Bool, true, false, some, List, [], ◌∷◌, String,
  arith, ltb, nat_eq, nat_eq_iff, length, lookup, lookup-insert, nat_key, string_key, lookup-Has,
  Has, Bool-cases,
}
use game_server_manager.Protocol.{Frame}
use game_server_manager.Hub.{
  Hub, AgentConnection, Chan, Effect, done, blocks, panics, ◌>>=◌, push_chan, send_chan, send_all,
  on_ui_message, send_to_agent, send_capacity,
}

-- An open channel without room.
pub record Full (ref : ℕ) (h : Hub) : Type 0 where
  pub chan : Chan
  pub there : lookup ref h.channels ≡ some chan
  pub open_ : chan.closed ≡ false
  pub no_room : send_capacity ≤ length chan.buffer

-- A send that goes on.
went_on :
    {A B : Type 0} (e : Effect A) (k : A → Effect B) (b : B)
    → (e >>= k) ≡ done b
    → (a : A) × (e ≡ done a) × (k a ≡ done b)
went_on (done a) k b h = (a, refl, h)
went_on blocks k b h = absurd (cc)
went_on panics k b h = absurd (cc)

send_chan-stuck : (ref : ℕ) (f : Frame) (h h' : Hub) → Full ref h → send_chan ref f h ≢ done h'
unfolding send_chan
send_chan-stuck ref f h h' full e =
    let no : ltb (length full.chan.buffer) 256 ≡ false = let le = full.no_room in ground arith in
    let bad : ◌≡◌ {A = Effect Hub} blocks (done h') = rw (full.there, full.open_, no) at e in
    absurd (cc)

send_chan-Full :
    (ref other : ℕ) (f : Frame) (h h' : Hub)
    → Full ref h
    → send_chan other f h ≡ done h'
    → Full ref h'
unfolding send_chan
send_chan-Full ref other f h h' full e = elim (Bool-cases (nat_eq other ref)) [
  | inl same ↦ absurd (
      send_chan-stuck ref f h h' full
        (subst (λ r. send_chan r f h ≡ done h') ((nat_eq_iff other ref).0 same) e))
  | inr apart ↦
      let (c, _, put) = went_on (push_chan f (lookup other h.channels)) _ h' e in
      subst (Full ref) (done-injective _ h' put) (record {
        chan = full.chan;
        there = lookup-insert other ref c h.channels ∙ rw apart full.there;
        open_ = full.open_;
        no_room = full.no_room;
      })
]
  where
    done-injective : (a b : Hub) → done a ≡ done b → a ≡ b
    done-injective a b k = cc

send_all-stuck :
    (name : String) (a : AgentConnection) (agents : List (String × AgentConnection)) (f : Frame)
    (h h' : Hub)
    → Has (name, a) agents
    → Full a.send h
    → send_all agents f h ≢ done h'
send_all-stuck name a [] f h h' found full e = absurd found
send_all-stuck name a ((n, b) ∷ agents) f h h' found full e =
    let (h1, sent, later) = went_on (send_chan b.send f h) _ h' e in
    elim found [
      | inl same ↦
          send_chan-stuck a.send f h h1 full
            (ap (λ x. send_chan x f h) (ap (λ x. x.1.send) same) ∙ sent)
      | inr behind ↦
          send_all-stuck name a agents f h1 h' behind
            (send_chan-Full a.send b.send f h h1 full sent) later
    ]

-- While the channel of one connected agent is open and full, neither SendToAgent to that agent comes
-- back, nor the case of Hub.Run that relays what a browser sends.
pub stuck_channel_stops_hub :
    (name : String) (a : AgentConnection) (f : Frame) (h h' : Hub) (answer : Bool)
    → lookup name h.agents ≡ some a
    → Full a.send h
    → (on_ui_message f h ≢ done h') × (send_to_agent name f h ≢ done (h', answer))
unfolding on_ui_message send_to_agent
stuck_channel_stops_hub name a f h h' answer found full = (
  send_all-stuck name a h.agents f h h' (lookup-Has name h.agents a found) full,
  λ e.
      let (h1, sent, _) =
        went_on (send_chan a.send f h) (λ x. done (x, true)) (h', answer) (rw found at e) in
      send_chan-stuck a.send f h h1 full sent,
)
