-- ===== src/Hub/Lifecycle/Safety.antt =====
-- Sequences of events, and Go's panics on closed channels (master/main.go, master/websocket.go).
use mathlib.Core.Option.{some-injective}
use game_server_manager.Base.{
  ℕ, ◌≡◌, ◌≢◌, refl, ap, ◌∙◌, sym, inl, inr, true, some, List, [], ◌∷◌, String, nat_eq, lookup,
  lookup-Has, nat_key, string_key, find, find-Has, subst, Bool, Bool-cases, Option-cases,
  nat_eq_iff, is_some,
}
use game_server_manager.Protocol.{Frame}
use game_server_manager.Hub.{
  Hub, Chan, Effect, done, blocks, panics, ◌>>=◌, send_chan, on_register_ui, on_unregister_ui,
  on_agent_message, on_ui_message, send_to_agent, store_metrics, add_pending, remove_pending,
  broadcast_to_ui, send_to,
}
use game_server_manager.Hub.Lifecycle.{
  System, Event, connects, disconnects, writes, sends, ui_says, agent_says, broadcasts, ui_opens,
  ui_closes, stores, pends, unpends, has_send, with_hub, end_reader, pop_chan, take_first, step,
  run, start,
}
use game_server_manager.Hub.Lifecycle.Open.{Inv, Holds, IsOpen-insert, IsOpen-insert_ne}
use game_server_manager.Hub.Lifecycle.Kept.{Kept, send_chan-Kept, send_all-Kept, with_hub-Inv}
use game_server_manager.Hub.Lifecycle.Readers.{accept-Inv, end_reader-Inv}

pop_chan-Kept : (ref : ℕ) (h : Hub) → Kept h (done (pop_chan ref (lookup ref h.channels) h))
pop_chan-Kept ref h = elim (Option-cases (lookup ref h.channels)) [
  | inl e ↦ rw (e, pop_chan) (refl, λ r o. o)
  | inr (c, e) ↦ rw (e, pop_chan) (first c e c.buffer)
]
  where
    first :
        (c : Chan)
        → lookup ref h.channels ≡ some c
        → (fs : List Frame) → Kept h (done (take_first ref c fs h))
    first c e [] = (refl, λ r o. o)
    first c e (f ∷ fs) = (
      refl,
      λ r o. elim (Bool-cases (nat_eq ref r)) [
        | inl same ↦
            let (d, found, open_) = o in
            let one : c ≡ d =
              some-injective c d
                (sym e ∙ ap (λ (k : ℕ). lookup k h.channels) ((nat_eq_iff ref r).0 same) ∙ found) in
            IsOpen-insert h.channels ref r (record c { buffer = fs })
              (ap (λ (x : Chan). x.closed) one ∙ open_) o
        | inr other ↦ IsOpen-insert_ne h.channels ref r (record c { buffer = fs }) other o
      ],
    )

sends-Inv :
    (s : System) (m : Effect (Hub × Bool))
    → Inv s
    → Kept s.hub (m >>= λ r. done r.0)
    → Holds Inv (m >>= λ r. done (with_hub s r.0))
sends-Inv s (done r) v kept = with_hub-Inv s (done r.0) v kept
sends-Inv s blocks v kept = tt
sends-Inv s panics v kept = kept

send_to_agent-Kept :
    (name : String) (f : Frame) (s : System)
    → Inv s
    → Kept s.hub (send_to_agent name f s.hub >>= λ r. done r.0)
unfolding send_to_agent
send_to_agent-Kept name f s v = elim (Option-cases (lookup name s.hub.agents)) [
  | inl e ↦ rw (e, send_to) (refl, λ r o. o)
  | inr (a, e) ↦
      rw (e, send_to)
        (shape (send_chan a.send f s.hub) (
          send_chan-Kept a.send f s.hub
            (v.opened a (v.registered name a (lookup-Has name s.hub.agents a e)).1)))
]
  where
    shape :
        (m : Effect Hub)
        → Kept s.hub m
        → Kept s.hub (◌>>=◌ {A = Hub × Bool} (m >>= λ h'. done (h', true)) (λ r. done r.0))
    shape (done h') kept = kept
    shape blocks kept = tt
    shape panics kept = kept

closes : (conn : ℕ) (h : Hub) → Kept h (done (on_unregister_ui conn h))
unfolding on_unregister_ui
closes conn h = elim (Bool-cases (is_some (lookup conn h.ui_clients))) [
  | inl e ↦ rw e (refl, λ r o. o)
  | inr e ↦ rw e (refl, λ r o. o)
]

-- Every event keeps the invariant, and none panics.
pub step-Inv : (e : Event) (s : System) → Inv s → Holds Inv (step e s)
unfolding step
step-Inv (connects agent_id name conn) s v = accept-Inv s agent_id name conn v
step-Inv (disconnects ref) s v = elim (Option-cases (find (has_send ref) s.readers)) [
  | inl e ↦ rw (e, end_reader) v
  | inr (a, e) ↦ rw e (end_reader-Inv s v a (find-Has (has_send ref) s.readers a e).0)
]
step-Inv (writes ref) s v =
    with_hub-Inv s (done (pop_chan ref (lookup ref s.hub.channels) s.hub)) v
      (pop_chan-Kept ref s.hub)
step-Inv (sends name f) s v =
    sends-Inv s (send_to_agent name f s.hub) v (send_to_agent-Kept name f s v)
step-Inv (ui_says f) s v = with_hub-Inv s (on_ui_message f s.hub) v (
    unfold on_ui_message in
    send_all-Kept s.hub.agents f s.hub λ n a has. v.opened a (v.registered n a has).1)
step-Inv (agent_says f) s v =
    with_hub-Inv s (done (on_agent_message f s.hub)) v (unfold on_agent_message in (refl, λ r o. o))
step-Inv (broadcasts f) s v =
    with_hub-Inv s (done (broadcast_to_ui f s.hub)) v (unfold broadcast_to_ui in (refl, λ r o. o))
step-Inv (ui_opens conn) s v =
    with_hub-Inv s (done (on_register_ui conn s.hub)) v (unfold on_register_ui in (refl, λ r o. o))
step-Inv (ui_closes conn) s v =
    with_hub-Inv s (done (on_unregister_ui conn s.hub)) v (closes conn s.hub)
step-Inv (stores name m) s v =
    with_hub-Inv s (done (store_metrics name m s.hub)) v (unfold store_metrics in (refl, λ r o. o))
step-Inv (pends p) s v =
    with_hub-Inv s (done (add_pending p s.hub)) v (unfold add_pending in (refl, λ r o. o))
step-Inv (unpends name) s v =
    with_hub-Inv s (done (remove_pending name s.hub)) v (unfold remove_pending in (refl, λ r o. o))

start-Inv : Inv start
unfolding start
start-Inv = record { registered = λ n a h. absurd h; opened = λ a h. absurd h; fresh = tt }

bind-Holds :
    (m : Effect System) (k : System → Effect System)
    → Holds Inv m
    → ((s : System) → Inv s → Holds Inv (k s))
    → Holds Inv (m >>= k)
bind-Holds (done s) k v next = next s v
bind-Holds blocks k v next = tt
bind-Holds panics k v next = v

pub run-Inv : (es : List Event) (s : System) → Inv s → Holds Inv (run es s)
unfolding run
run-Inv [] s v = v
run-Inv (e ∷ es) s v = bind-Holds (step e s) (run es) (step-Inv e s v) (run-Inv es)

-- Whatever agents and browsers connect, disconnect and send, in whatever order, the hub never sends
-- on a closed channel and never closes one twice: such a run ends in no panic.
pub run-ne-panics : (es : List Event) → run es start ≢ panics
run-ne-panics es e = subst (Holds Inv) e (run-Inv es start start-Inv)
