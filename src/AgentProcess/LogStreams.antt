-- ===== src/AgentProcess/LogStreams.antt =====
-- A log stream from its start to its end, with nothing else going on meanwhile (agent/docker.go
-- StreamLogs; agent/agent.go handleStreamLogs). The clock gives the time of each line.
use Prim.Native.String
use game_server_manager.Base.{
  ℕ, zero, suc, Has, ◌-◌, ◌≡◌, refl, ap, sym, ◌∙◌, false, Option, none, some, List, [], ◌∷◌, ◌++◌,
  String, arith, length, take, drop, if◌then◌else◌, ltb, Bool-cases, inl, inr, append-nil,
  append_assoc, length-append, lookup, lookup-delete,
}
use game_server_manager.Base.Int.{ℤ, int_key, int_eq_iff}
use game_server_manager.Protocol.{Frame, Message, message, log_line, StreamLogsPayload}
use game_server_manager.Rcon.{Bytes}
use game_server_manager.Docker.{Client, Result, ok, err}
use game_server_manager.Docker.Streams.{stream_opens, stream_closes}
use game_server_manager.AgentProcess.Scanner.{scan_lines, scan_error}
use game_server_manager.AgentProcess.Sending.{send_message_room, send_message_full}
use game_server_manager.AgentProcess.{Agent, send_message, on_log_line, without_header}

-- The scanner's loop, from the n-th line on.
unfoldable pub each_line :
    {S : Type 0} → ℤ → (clock : ℕ → String) → ℕ → List Bytes → Agent S → Agent S
each_line id clock n [] a = a
each_line id clock n (line ∷ lines) a =
    each_line id clock (suc n) lines (on_log_line id line (clock n) a)

module _ {S : Type 0} (client : Client S) (id : ℤ) (name : String) (clock : ℕ → String) where
  abbrev logs_read : Result (Bytes × Option String) → Agent S → Agent S × Option String
  logs_read (err e) a = (a, some e)
  logs_read (ok (bytes, e)) a =
      (each_line id clock 0 (scan_lines bytes).0 a, scan_error (scan_lines bytes) e)

  abbrev logs_listed : Result (List String) → Agent S → Agent S × Option String
  logs_listed (err e) a = (a, some e)
  logs_listed (ok []) a = (a, some (String.◌++◌ "container not found: " name))
  logs_listed (ok (container ∷ _)) a = logs_read (client.container_logs container a.docker) a

  abbrev cleaned_up : ℕ → Agent S × Option String → Agent S × Option String
  cleaned_up stream (a, e) = (record a { streams = stream_closes id stream a.streams }, e)

  -- StreamLogs with the callback of handleStreamLogs; the error that it returns is logged.
  unfoldable pub stream_logs : Agent S → Agent S × Option String
  stream_logs a =
      let (streams, stream) = stream_opens id a.streams in
      cleaned_up stream
        (logs_listed (client.container_list false name a.docker) (record a { streams = streams }))

-- handleStreamLogs
unfoldable pub handle_stream_logs :
    {S : Type 0} → Client S → (clock : ℕ → String) → StreamLogsPayload → Agent S → Agent S
handle_stream_logs client clock p a = (stream_logs client p.server_id p.container_name clock a).0

-- The messages for the lines of a log: of a line of more than eight bytes all but the first eight.
unfoldable pub line_messages : ℤ → (clock : ℕ → String) → ℕ → List Bytes → List Frame
line_messages id clock n [] = []
line_messages id clock n (line ∷ lines) =
    message (
      log_line (record {
        server_id = id;
        line = if ltb 8 (length line) then drop 8 line else line;
        time = clock n;
      }))
    ∷ line_messages id clock (suc n) lines

-- The lines that a scanner finds in what Docker has for a container of that name.
abbrev read_lines : Result (Bytes × Option String) → List Bytes
read_lines (err e) = []
read_lines (ok (bytes, e)) = (scan_lines bytes).0

abbrev first_lines : {S : Type 0} → Client S → S → Result (List String) → List Bytes
first_lines client docker (err e) = []
first_lines client docker (ok []) = []
first_lines client docker (ok (container ∷ _)) = read_lines (client.container_logs container docker)

abbrev pub lines_of : {S : Type 0} → Client S → (name : String) → S → List Bytes
lines_of client name docker = first_lines client docker (client.container_list false name docker)

-- What a stream adds to the channel: as many messages as there is room for.
record Appended {S : Type 0} (fs : List Frame) (a b : Agent S) : Type 0 where
  send : b.send ≡ a.send ++ take (256 - length a.send) fs
  streams : b.streams ≡ a.streams
  docker : b.docker ≡ a.docker

take_nil : {A : Type 0} (n : ℕ) → ◌≡◌ {A = List A} (take n []) []
take_nil zero = refl
take_nil (suc n) = refl

one_more_line :
    {S : Type 0} (m : Message) (fs : List Frame) (a : Agent S) (k : Agent S → Agent S)
    → a.stopped ≡ false
    → ((x : Agent S) → x.stopped ≡ false → Appended fs x (k x))
    → Appended (message m ∷ fs) a (k (send_message m a))
one_more_line {S} m fs a k running rest = elim (Bool-cases (ltb (length a.send) 256)) [
  | inl room ↦
      let more : Agent S = record a { send = a.send ++ message m ∷ [] } in
      let left : 256 - length a.send ≡ suc (256 - length more.send) =
        ground (arith, length-append a.send (message m ∷ [])) in
      let r = rest more running in
      rw (send_message_room m a running (ground arith)) (record {
        send =
            r.send
            ∙ append_assoc a.send (message m ∷ []) (take (256 - length more.send) fs)
            ∙ ap (λ (n : ℕ). a.send ++ take n (message m ∷ fs)) (sym left);
        streams = r.streams;
        docker = r.docker;
      })
  | inr full ↦
      let left : 256 - length a.send ≡ 0 = ground arith in
      let r = rest a running in
      rw (send_message_full m a running (ground arith)) (record {
        send =
            r.send
            ∙ ap (λ (n : ℕ). a.send ++ take n fs) left
            ∙ ap (λ (n : ℕ). a.send ++ take n (message m ∷ fs)) (sym left);
        streams = r.streams;
        docker = r.docker;
      })
]

each_line-Appended :
    {S : Type 0} (id : ℤ) (clock : ℕ → String) (n : ℕ) (lines : List Bytes) (a : Agent S)
    → a.stopped ≡ false
    → Appended (line_messages id clock n lines) a (each_line id clock n lines a)
unfolding each_line line_messages on_log_line
each_line-Appended id clock n [] a running = record {
  send = sym (append-nil a.send) ∙ ap (λ fs. a.send ++ fs) (sym (take_nil (256 - length a.send)));
  streams = refl;
  docker = refl;
}
each_line-Appended id clock n (line ∷ lines) a running =
    one_more_line (log_line (record { server_id = id; line = without_header line; time = clock n }))
      (line_messages id clock (suc n) lines) a (each_line id clock (suc n) lines) running
      (each_line-Appended id clock (suc n) lines)

-- What a log stream that runs alone leaves: the messages in the channel, and its entry removed.
pub record IsStreamed {S : Type 0} (id : ℤ) (fs : List Frame) (a b : Agent S) : Type 0 where
  pub send : b.send ≡ a.send ++ take (256 - length a.send) fs
  pub ended : lookup id b.streams.live ≡ none
  pub cancelled : Has a.streams.next b.streams.cancelled
  pub docker : b.docker ≡ a.docker

-- The log stream of a server, in an agent that is not stopped and does nothing else meanwhile: each
-- line that the scanner finds in what Docker has becomes one message for the server, in order, less
-- its first eight bytes if it has more than eight, as far as the channel has room; if Docker fails or knows no such container there is none. At the end the
-- stream's context is cancelled and no stream is registered for the server.
pub handle_stream_logs-IsStreamed :
    {S : Type 0} (client : Client S) (clock : ℕ → String) (p : StreamLogsPayload) (a : Agent S)
    → a.stopped ≡ false
    → IsStreamed p.server_id
        (line_messages p.server_id clock 0 (lines_of client p.container_name a.docker))
        a
        (handle_stream_logs client clock p a)
unfolding handle_stream_logs stream_logs stream_opens stream_closes line_messages each_line
handle_stream_logs-IsStreamed {S} client clock p a running =
    listed (client.container_list false p.container_name a.docker)
  where
    id : ℤ
    id = p.server_id

    opened : Agent S
    opened = record a { streams = (stream_opens id a.streams).0 }

    closed_lem :
        (fs : List Frame) (r : Agent S × Option String)
        → Appended fs opened r.0
        → IsStreamed id fs a (cleaned_up client id p.container_name clock a.streams.next r).0
    closed_lem fs (b, e) h = record {
      send = h.send;
      ended = lookup-delete id id b.streams.live ∙ rw ((int_eq_iff id id).1 refl) refl;
      cancelled = inl refl;
      docker = h.docker;
    }

    nothing :
        (e : Option String)
        → IsStreamed id [] a
            (cleaned_up client id p.container_name clock a.streams.next (opened, e)).0
    nothing e = closed_lem [] (opened, e) (each_line-Appended id clock 0 [] opened running)

    read :
        (r : Result (Bytes × Option String))
        → IsStreamed id
            (line_messages id clock 0 (read_lines r))
            a
            (cleaned_up client id p.container_name clock a.streams.next
              (logs_read client id p.container_name clock r opened)).0
    read (err e) = nothing (some e)
    read (ok (bytes, e)) =
        let lines = (scan_lines bytes).0 in
        closed_lem (line_messages id clock 0 lines)
          (each_line id clock 0 lines opened, scan_error (scan_lines bytes) e)
          (each_line-Appended id clock 0 lines opened running)

    listed :
        (r : Result (List String))
        → IsStreamed id
            (line_messages id clock 0 (first_lines client a.docker r))
            a
            (cleaned_up client id p.container_name clock a.streams.next
              (logs_listed client id p.container_name clock r opened)).0
    listed (err e) = nothing (some e)
    listed (ok []) = nothing (some (String.◌++◌ "container not found: " p.container_name))
    listed (ok (container ∷ _)) = read (client.container_logs container a.docker)
