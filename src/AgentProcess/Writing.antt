-- ===== src/AgentProcess/Writing.antt =====
-- The writer and the reader of an agent (agent/agent.go writer, reader), of which the first is the
-- master's agentWriter over the agent's own channel, which nothing closes.
use game_server_manager.Base.{
  ◌≡◌, refl, ap, ◌∙◌, Bool, true, false, List, [], ◌∷◌, ◌++◌, if◌then◌else◌,
}
use game_server_manager.Protocol.{Frame, message, bad_payload, unknown_type, not_envelope}
use game_server_manager.Connections.Writer.{
  Outgoing, text, ping, takes, ticks, Writer, writer_turn, receive,
}
use game_server_manager.AgentProcess.{Agent}

-- An agent with what its writer has written, and whether the writer has returned.
pub record Wired (S : Type 0) : Type 0 where
  pub agent : Agent S
  pub wrote : List Outgoing
  pub returned : Bool

abbrev pub sends_on : {S : Type 0} → Outgoing → Wired S → Wired S
sends_on o w = record w { wrote = w.wrote ++ o ∷ [] }

abbrev pub gives_up : {S : Type 0} → Wired S → Wired S
gives_up w = record w { returned = true }

abbrev pub with_send : {S : Type 0} → List Frame → Wired S → Wired S
with_send fs w = record w { agent = record w.agent { send = fs } }

abbrev pub take_message : {S : Type 0} → (written : Bool) → List Frame → Wired S → Wired S
take_message written [] w = w
take_message written (f ∷ rest) w =
    if written then sends_on (text f) (with_send rest w) else gives_up (with_send rest w)

-- A round of the writer's select: a message of the channel, or the ticker.
unfoldable pub agent_takes : {S : Type 0} → (written : Bool) → Wired S → Wired S
agent_takes written w = if w.returned then w else take_message written w.agent.send w

unfoldable pub agent_ticks : {S : Type 0} → (written : Bool) → Wired S → Wired S
agent_ticks written w = if w.returned then w else if written then sends_on ping w else gives_up w

-- The reader's loop: the frames for which a goroutine handles the message. What is not an envelope is
-- logged.
unfoldable pub handled : List Frame → List Frame
handled [] = []
handled (message m ∷ fs) = message m ∷ handled fs
handled (bad_payload type ∷ fs) = bad_payload type ∷ handled fs
handled (unknown_type type ∷ fs) = unknown_type type ∷ handled fs
handled (not_envelope ∷ fs) = handled fs

abbrev as_writer : {S : Type 0} → Wired S → Writer
as_writer w = record {
  buffer = w.agent.send;
  closed = false;
  wrote = w.wrote;
  returned = w.returned;
}

unless :
    {A B : Type 0} (f : A → B) (b : Bool) (x y : A)
    → f (if b then x else y) ≡ (if b then f x else f y)
unless f true x y = refl
unless f false x y = refl

take_message_lem :
    {S : Type 0} (written : Bool) (fs : List Frame) (w : Wired S)
    → as_writer (take_message written fs w) ≡ receive written fs (as_writer w)
take_message_lem written [] w = refl
take_message_lem true (f ∷ rest) w = refl
take_message_lem false (f ∷ rest) w = refl

-- A round of the agent's writer that takes a message is one of the master's.
agent_takes_lem :
    {S : Type 0} (written : Bool) (w : Wired S)
    → as_writer (agent_takes written w) ≡ writer_turn (takes written) (as_writer w)
unfolding agent_takes writer_turn
agent_takes_lem written w =
    unless as_writer w.returned w (take_message written w.agent.send w)
    ∙ ap (λ v. if w.returned then as_writer w else v) (take_message_lem written w.agent.send w)

-- So is one in which the ticker is due.
agent_ticks_lem :
    {S : Type 0} (written : Bool) (w : Wired S)
    → as_writer (agent_ticks written w) ≡ writer_turn (ticks written) (as_writer w)
unfolding agent_ticks writer_turn
agent_ticks_lem true w = unless as_writer w.returned w (sends_on ping w)
agent_ticks_lem false w = unless as_writer w.returned w (gives_up w)
