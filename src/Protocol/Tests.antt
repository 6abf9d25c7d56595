-- ===== src/Protocol/Tests.antt =====
-- A concrete message on its way.
use game_server_manager.Base.{◌≡◌, ◌⊎◌, refl, true, false, none, some, [], arith}
use game_server_manager.Base.Int.{pos}
use game_server_manager.Protocol.{RconCommandPayload, rcon_command, message}
use game_server_manager.Protocol.Json.{Coding, Json}
use game_server_manager.Protocol.Envelope.{marshals, write_message, receiver}
use game_server_manager.Protocol.RoundTrip.{receiver-write_message}

abbrev small_numbers : Coding
small_numbers = record {
  written = λ bytes. "";
  read = λ text. [];
  round = λ n. n;
  finite = λ n. true;
}

-- As sendRcon sends it: the id of the message stands in the envelope too.
abbrev status : RconCommandPayload
status = record {
  server_id = pos 1;
  message_id = "1700000000";
  command = "status";
  rcon_host = "lanmaster-match";
  rcon_port = pos 27015;
  rcon_password = "pw";
}

receiver-write_message_example :
    ((marshals small_numbers (rcon_command status) ≡ true)
      × ((v : Json) × (write_message small_numbers (rcon_command status) ≡ some v)
          × (receiver small_numbers (rcon_command status) v ≡ message (rcon_command status))))
    ⊎ ((marshals small_numbers (rcon_command status) ≡ false)
        × (write_message small_numbers (rcon_command status) ≡ none))
receiver-write_message_example =
    receiver-write_message small_numbers (λ n h. refl) (rcon_command status)
      ((omega arith, omega arith), (omega arith, omega arith))
