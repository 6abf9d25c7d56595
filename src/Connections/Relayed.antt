-- ===== src/Connections/Relayed.antt =====
-- What a browser's session does to the channels of the agents (master/websocket.go handleUIWS,
-- master/main.go Run).
use mathlib.Core.Option.{some-injective}
use game_server_manager.Base.{
  ℕ, suc, subst, ◌+◌, ◌≤◌, ◌≡◌, ◌≢◌, refl, ap, sym, ◌∙◌, inl, inr, true, false, some, none, List,
  [], ◌∷◌, ◌++◌, String, arith, ltb, length, length-append, append_assoc, append-nil, nat_eq,
  lookup, insert, lookup-insert, lookup-delete, delete, nat_key, string_key, Has,
}
use game_server_manager.Protocol.{Frame}
use game_server_manager.Hub.{
  Hub, AgentConnection, Chan, done, ◌>>=◌, push_chan, send_chan, send_all, on_ui_message,
  on_register_ui, on_unregister_ui, send_capacity,
}
use game_server_manager.Connections.Browser.{ui_reads, handle_ui_ws}

abbrev pub Agents : Type 0
Agents = List (String × AgentConnection)

-- An agent's channel is open and has room for n more messages.
pub record HasRoom (n : ℕ) (channels : List (ℕ × Chan)) (a : AgentConnection) : Type 0 where
  pub chan : Chan
  pub there : lookup a.send channels ≡ some chan
  pub open_ : chan.closed ≡ false
  pub room : length chan.buffer + n ≤ send_capacity

-- Each agent has such a channel, and no two of them the same one.
abbrev pub Ready : ℕ → List (ℕ × Chan) → Agents → Type 0
Ready n channels [] = Unit {0}
Ready n channels ((_, a) ∷ rest) =
    HasRoom n channels a
    × ((m : String) (b : AgentConnection) → Has (m, b) rest → a.send ≢ b.send)
    × Ready n channels rest

-- The channels before and after the messages: those of the agents have them at the end, in order.
pub record Got (fs : List Frame) (agents : Agents) (before after : List (ℕ × Chan)) : Type 0 where
  pub appended :
      (name : String) (a : AgentConnection)
      → Has (name, a) agents
      → (c : Chan) → lookup a.send before ≡ some c
      → lookup a.send after ≡ some (record { buffer = c.buffer ++ fs; closed = c.closed })
  pub others :
      (r : ℕ)
      → ((name : String) (a : AgentConnection) → Has (name, a) agents → a.send ≢ r)
      → lookup r after ≡ lookup r before

abbrev with_channels : List (ℕ × Chan) → Hub → Hub
with_channels channels h = record h { channels = channels }

insert_other :
    (ref r : ℕ) (c : Chan) (channels : List (ℕ × Chan))
    → ref ≢ r
    → lookup r (insert ref c channels) ≡ lookup r channels
insert_other ref r c channels apart =
    let other : nat_eq ref r ≡ false = ground arith in
    lookup-insert ref r c channels ∙ rw other refl

insert_same :
    (ref : ℕ) (c : Chan) (channels : List (ℕ × Chan)) → lookup ref (insert ref c channels) ≡ some c
insert_same ref c channels =
    let self : nat_eq ref ref ≡ true = ground arith in
    lookup-insert ref ref c channels ∙ rw self refl

Ready-insert :
    (n ref : ℕ) (c : Chan) (channels : List (ℕ × Chan)) (agents : Agents)
    → ((m : String) (b : AgentConnection) → Has (m, b) agents → ref ≢ b.send)
    → Ready n channels agents
    → Ready n (insert ref c channels) agents
Ready-insert n ref c channels [] apart h = tt
Ready-insert n ref c channels ((m, b) ∷ rest) apart (room, distinct, h) = (
  record {
    chan = room.chan;
    there = insert_other ref b.send c channels (apart m b (inl refl)) ∙ room.there;
    open_ = room.open_;
    room = room.room;
  },
  distinct,
  Ready-insert n ref c channels rest (λ k a has. apart k a (inr has)) h,
)

send_chan_lem :
    (n : ℕ) (a : AgentConnection) (f : Frame) (h : Hub) (room : HasRoom (suc n) h.channels a)
    → send_chan a.send f h
      ≡ done (
          with_channels
            (insert a.send
              (record { buffer = room.chan.buffer ++ f ∷ []; closed = false })
              h.channels)
            h)
unfolding send_chan
send_chan_lem n a f h room =
    let fits : ltb (length room.chan.buffer) 256 ≡ true = let le = room.room in ground arith in
    rw (room.there, push_chan, room.open_, fits) refl

-- One message to all.
send_all_lem :
    (n : ℕ) (f : Frame) (agents : Agents) (h : Hub)
    → Ready (suc n) h.channels agents
    → (channels : List (ℕ × Chan)) × (send_all agents f h ≡ done (with_channels channels h))
      × Got (f ∷ []) agents h.channels channels
      × Ready n channels agents
send_all_lem n f [] h ready =
    (h.channels, refl, record { appended = λ name a has. absurd has; others = λ r apart. refl }, tt)
send_all_lem n f ((m, a) ∷ rest) h (room, distinct, ready) =
    let c' : Chan = record { buffer = room.chan.buffer ++ f ∷ []; closed = false } in
    let mid = insert a.send c' h.channels in
    let (channels, sent, got, still) =
      send_all_lem n f rest (with_channels mid h)
        (Ready-insert (suc n) a.send c' h.channels rest distinct ready) in
    let mine : lookup a.send channels ≡ some c' =
      got.others a.send (λ k b has e. distinct k b has (sym e))
      ∙ insert_same a.send c' h.channels in
    (
      channels,
      ap (λ e. e >>= λ h'. send_all rest f h') (send_chan_lem n a f h room) ∙ sent,
      record {
        appended = λ name b has c found. elim has [
          | inl same ↦
              subst
                (λ (x : AgentConnection).
                  lookup x.send h.channels ≡ some c
                  → lookup x.send channels
                    ≡ some (record { buffer = c.buffer ++ f ∷ []; closed = c.closed }))
                (sym (ap (λ e. e.1) same)) (own channels mine c) found
          | inr later ↦
              got.appended name b later c
                (insert_other a.send b.send c' h.channels (distinct name b later) ∙ found)
        ];
        others = λ r apart.
            got.others r (λ k b has. apart k b (inr has))
            ∙ insert_other a.send r c' h.channels (apart m a (inl refl));
      },
      (
        record {
          chan = c';
          there = mine;
          open_ = refl;
          room = omega (arith, length-append room.chan.buffer (f ∷ []), room.room);
        },
        distinct,
        still,
      ),
    )
  where
    own :
        (channels : List (ℕ × Chan))
        → lookup a.send channels
          ≡ some (record { buffer = room.chan.buffer ++ f ∷ []; closed = false })
        → (c : Chan) → lookup a.send h.channels ≡ some c
        → lookup a.send channels ≡ some (record { buffer = c.buffer ++ f ∷ []; closed = c.closed })
    own channels mine c found =
        let same : room.chan ≡ c = some-injective room.chan c (sym room.there ∙ found) in
        mine
        ∙ ap (λ b. some (record { buffer = room.chan.buffer ++ f ∷ []; closed = b }))
            (sym room.open_)
        ∙ ap (λ (x : Chan). some (record { buffer = x.buffer ++ f ∷ []; closed = x.closed })) same

Got-trans :
    (fs gs : List Frame) (agents : Agents) (before mid after : List (ℕ × Chan))
    → Got fs agents before mid
    → Got gs agents mid after
    → Got (fs ++ gs) agents before after
Got-trans fs gs agents before mid after h k = record {
  appended = λ name a has c found.
      k.appended name a has _ (h.appended name a has c found)
      ∙ ap (λ b. some (record { buffer = b; closed = c.closed })) (append_assoc c.buffer fs gs);
  others = λ r apart. k.others r apart ∙ h.others r apart;
}

ui_reads_lem :
    (fs : List Frame) (h : Hub)
    → Ready (length fs) h.channels h.agents
    → (channels : List (ℕ × Chan)) × (ui_reads fs h ≡ done (with_channels channels h))
      × Got fs h.agents h.channels channels
unfolding ui_reads on_ui_message
ui_reads_lem [] h ready = (
  h.channels,
  refl,
  record {
    appended = λ name a has c found.
        found
        ∙ ap (λ b. some (record { buffer = b; closed = c.closed })) (sym (append-nil c.buffer));
    others = λ r apart. refl;
  },
)
ui_reads_lem (f ∷ fs) h ready =
    let (mid, sent, got, still) = send_all_lem (length fs) f h.agents h ready in
    let (channels, went, rest) = ui_reads_lem fs (with_channels mid h) still in
    (
      channels,
      ap (λ e. e >>= ui_reads fs) sent ∙ went,
      Got-trans (f ∷ []) fs h.agents h.channels mid channels got rest,
    )

-- The session of a browser, when each connected agent has an open channel of its own with room for
-- all that the browser sends: each of them gets the browser's messages, in order; no other channel
-- changes; at the end the browser is not listed any more and its connection is closed.
pub handle_ui_ws_relays :
    (conn : ℕ) (fs : List Frame) (h : Hub)
    → Ready (length fs) h.channels h.agents
    → (h' : Hub) × (handle_ui_ws true conn fs h ≡ done h')
      × Got fs h.agents h.channels h'.channels
      × (lookup conn h'.ui_clients ≡ none)
      × (h'.closed_conns ≡ conn ∷ h.closed_conns)
      × (h'.agents ≡ h.agents)
unfolding handle_ui_ws on_register_ui on_unregister_ui
handle_ui_ws_relays conn fs h ready =
    let (channels, went, got) = ui_reads_lem fs (on_register_ui conn h) ready in
    let self : nat_eq conn conn ≡ true = ground arith in
    let listed : lookup conn (insert conn true h.ui_clients) ≡ some true =
      lookup-insert conn conn true h.ui_clients ∙ rw self refl in
    (
      record h {
        channels = channels;
        ui_clients = delete conn (insert conn true h.ui_clients);
        closed_conns = conn ∷ h.closed_conns;
      },
      ap (λ e. e >>= λ read. done (on_unregister_ui conn read)) went ∙ rw listed refl,
      got,
      lookup-delete conn conn (insert conn true h.ui_clients) ∙ rw self refl,
      refl,
      refl,
    )
