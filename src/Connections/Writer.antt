-- ===== src/Connections/Writer.antt =====
-- The writing goroutine of a connection (master/websocket.go agentWriter): a select over the channel
-- of messages and a ticker.
use game_server_manager.Base.{Bool, true, List, [], ◌∷◌, ◌++◌, if◌then◌else◌}
use game_server_manager.Protocol.{Frame}

-- What is written to a connection.
pub data Outgoing : Type 0 where
  text : Frame → Outgoing
  ping close_message : Outgoing

-- What happens at one turn: another goroutine puts a message into the channel or closes it, or the
-- select takes from the channel or from the ticker, with a write that succeeds or fails.
pub data Turn : Type 0 where
  puts : Frame → Turn
  closes : Turn
  takes ticks : (written : Bool) → Turn

pub record Writer : Type 0 where
  pub buffer : List Frame
  -- whether the channel is closed
  pub closed : Bool
  pub wrote : List Outgoing
  pub returned : Bool

abbrev pub writes : Outgoing → Writer → Writer
writes o w = record w { wrote = w.wrote ++ o ∷ [] }

abbrev pub returns : Writer → Writer
returns w = record w { returned = true }

-- case message, ok := <-agent.Send: an open channel without a message is not taken from; the error
-- of the close message is ignored.
abbrev pub receive : (written : Bool) → List Frame → Writer → Writer
receive written [] w = if w.closed then returns (writes close_message w) else w
receive written (f ∷ rest) w =
    if written
    then writes (text f) (record w { buffer = rest })
    else returns (record w { buffer = rest })

-- case <-ticker.C
abbrev pub tick : (written : Bool) → Writer → Writer
tick written w = if written then writes ping w else returns w

-- Nobody puts a message into a channel that is closed.
abbrev pub put : Frame → Writer → Writer
put f w = if w.closed then w else record w { buffer = w.buffer ++ f ∷ [] }

unfoldable pub writer_turn : Turn → Writer → Writer
writer_turn (puts f) w = put f w
writer_turn closes w = record w { closed = true }
writer_turn (takes written) w = if w.returned then w else receive written w.buffer w
writer_turn (ticks written) w = if w.returned then w else tick written w

unfoldable pub writer_turns : List Turn → Writer → Writer
writer_turns [] w = w
writer_turns (t ∷ ts) w = writer_turns ts (writer_turn t w)
