-- ===== src/Rcon/Tests.antt =====
-- Concrete RCON packets and sessions.
use game_server_manager.Base.{◌≡◌, ◌≢◌, refl, ◌++◌, false, some, List, [], ◌∷◌, arith, concat}
use game_server_manager.Base.Int.{pos}
use game_server_manager.Base.Decimal.{itoa}
use game_server_manager.Rcon.{Bytes, got, read_full, rcon_read, rcon_packet_bytes, read_int32}
use game_server_manager.Rcon.Stream.{ReadsFlat, read_full-ReadsFlat}
use game_server_manager.Rcon.Codec.{packet_format, rcon_packet_bytes-format, rcon_read-format}
use game_server_manager.Rcon.Session.{
  Peer, returned, send_rcon_command, send_rcon_command-returns, panicked,
  send_rcon_command-ne-panicked,
}

abbrev hello : Bytes
hello = b'h' ∷ b'i' ∷ []

rcon_packet_bytes-hello :
    rcon_packet_bytes 2 2 hello
    ≡ some (12 ∷ 0 ∷ 0 ∷ 0 ∷ 2 ∷ 0 ∷ 0 ∷ 0 ∷ 2 ∷ 0 ∷ 0 ∷ 0 ∷ b'h' ∷ b'i' ∷ 0 ∷ 0 ∷ [])
unfolding rcon_packet_bytes
rcon_packet_bytes-hello = refl

read_int32_minus_one : read_int32 255 255 255 255 ≡ 0xffff_ffff
unfolding read_int32
read_int32_minus_one = refl

-- The packet in two chunks, the second with two bytes of the next packet.
abbrev two_chunks : List Bytes
two_chunks =
    (12 ∷ 0 ∷ 0 ∷ 0 ∷ 2 ∷ []) ∷ (0 ∷ 0 ∷ 0 ∷ 2 ∷ 0 ∷ 0 ∷ 0 ∷ b'h' ∷ b'i' ∷ 0 ∷ 0 ∷ 9 ∷ 9 ∷ []) ∷ []

read_full-ReadsFlat_example : ReadsFlat 4 (concat two_chunks) (read_full 4 two_chunks)
read_full-ReadsFlat_example = read_full-ReadsFlat 4 two_chunks

rcon_packet_bytes-format_example : rcon_packet_bytes 1 3 hello ≡ some (packet_format 1 3 hello)
rcon_packet_bytes-format_example = rcon_packet_bytes-format 1 3 hello (omega arith)

rcon_read-format_example :
    (left : List Bytes) × (rcon_read two_chunks
      ≡ some (got (record { size = 12; id = 2; typ = 2; body = hello }) left))
    × (concat left ≡ 9 ∷ 9 ∷ [])
rcon_read-format_example =
    rcon_read-format 2 2 hello (9 ∷ 9 ∷ []) two_chunks (omega arith) (omega arith) (omega arith)
      refl

abbrev refusing : Peer
refusing = record { write_fails = λ _. false; inbound = packet_format (0xffff_ffff) 2 [] ∷ [] }

abbrev accepting : Peer
accepting = record {
  write_fails = λ _. false;
  inbound = (packet_format 1 2 [] ++ packet_format 2 0 hello) ∷ [];
}

itoa_examples : (itoa (pos 27015) ≡ "27015") × (itoa (pos 0) ≡ "0")
unfolding itoa
itoa_examples = (refl, refl)

send_rcon_command-returns_example :
    send_rcon_command (λ _. some accepting) "host" (pos 27015) hello hello ≡ record {
      outcome = returned hello;
      sent = packet_format 1 3 hello ∷ packet_format 2 2 hello ∷ [];
    }
send_rcon_command-returns_example =
    send_rcon_command-returns (λ _. some accepting) "host" (pos 27015) accepting hello hello refl
      (omega arith) refl 1 2 2 0 [] hello [] (omega arith) (omega arith) (omega arith) (omega arith)
      (omega arith) (omega arith) (omega arith) refl refl

send_rcon_command-ne-panicked_example :
    (send_rcon_command (λ _. some refusing) "host" (pos 27015) hello hello).outcome ≢ panicked
send_rcon_command-ne-panicked_example =
    send_rcon_command-ne-panicked (λ _. some refusing) "host" (pos 27015) hello hello (omega arith)
      (omega arith)
