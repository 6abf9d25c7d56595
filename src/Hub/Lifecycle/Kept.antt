-- ===== src/Hub/Lifecycle/Kept.antt =====
-- Effects that keep every open channel open: sends to one agent and to all.
use game_server_manager.Base.{
  ℕ, ◌≡◌, refl, ◌∙◌, inl, inr, false, List, [], ◌∷◌, ◌++◌, String, ltb, length, insert, nat_key,
  string_key, Has, subst, Bool-cases,
}
use game_server_manager.Protocol.{Frame}
use game_server_manager.Hub.{
  Hub, AgentConnection, Chan, Effect, done, blocks, panics, ◌>>=◌, send_chan, send_all, push_chan,
}
use game_server_manager.Hub.Lifecycle.{System, with_hub}
use game_server_manager.Hub.Lifecycle.Open.{IsOpen, Inv, Holds, IsOpen-insert}

-- What an effect on the hub may do: leave the registered agents and every open channel as they are.
abbrev pub Kept : Hub → Effect Hub → Type 0
Kept h (done h') = (h'.agents ≡ h.agents) × ((r : ℕ) → IsOpen h.channels r → IsOpen h'.channels r)
Kept h blocks = Unit {0}
Kept h panics = ⊥

pub put_open :
    (h : Hub) (ref : ℕ) (c : Chan)
    → c.closed ≡ false
    → Kept h (done (record h { channels = insert ref c h.channels }))
put_open h ref c e = (refl, λ r o. IsOpen-insert h.channels ref r c e o)

pub send_chan-Kept :
    (ref : ℕ) (f : Frame) (h : Hub) → IsOpen h.channels ref → Kept h (send_chan ref f h)
unfolding send_chan
send_chan-Kept ref f h (c, found, open_) = elim (Bool-cases (ltb (length c.buffer) 256)) [
  | inl room ↦
      rw (found, push_chan, open_, room)
        (put_open h ref (record { buffer = c.buffer ++ f ∷ []; closed = false }) refl)
  | inr full ↦ rw (found, push_chan, open_, full) tt
]

pub bind-Kept :
    (h : Hub) (m : Effect Hub) (k : Hub → Effect Hub)
    → Kept h m
    → ((h' : Hub) → Kept h (done h') → Kept h' (k h'))
    → Kept h (m >>= k)
bind-Kept h (done h') k kept next = compose (k h') (next h' kept)
  where
    compose : (r : Effect Hub) → Kept h' r → Kept h r
    compose (done g) (same, opens) = (same ∙ kept.0, λ r o. opens r (kept.1 r o))
    compose blocks _ = tt
    compose panics impossible = impossible
bind-Kept h blocks k kept next = tt
bind-Kept h panics k kept next = kept

pub send_all-Kept :
    (agents : List (String × AgentConnection)) (f : Frame) (h : Hub)
    → ((n : String) (a : AgentConnection) → Has (n, a) agents → IsOpen h.channels a.send)
    → Kept h (send_all agents f h)
send_all-Kept [] f h opens = (refl, λ r o. o)
send_all-Kept ((n, a) ∷ agents) f h opens =
    bind-Kept h (send_chan a.send f h) (send_all agents f)
      (send_chan-Kept a.send f h (opens n a (inl refl)))
      λ h' kept. send_all-Kept agents f h' (λ m b has. kept.1 b.send (opens m b (inr has)))

-- So such an effect keeps the invariant.
pub with_hub-Inv :
    (s : System) (r : Effect Hub)
    → Inv s
    → Kept s.hub r
    → Holds Inv (r >>= λ h. done (with_hub s h))
with_hub-Inv s (done h) v (same, opens) = record {
  registered = λ n a has. v.registered n a (subst (Has (n, a)) same has);
  opened = λ a has. opens a.send (v.opened a has);
  fresh = v.fresh;
}
with_hub-Inv s blocks v kept = tt
with_hub-Inv s panics v kept = kept
