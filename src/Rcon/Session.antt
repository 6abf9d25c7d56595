-- ===== src/Rcon/Session.antt =====
-- sendRconCommand (agent/rcon.go): dial, authenticate, send one command, read one reply.
-- The dialler is a parameter. A write that fails is taken to send nothing; the deadlines show as
-- reads that fail at the end of what arrives.
use Prim.Native.String
use game_server_manager.Base.{
  ℕ, ◌+◌, ◌-◌, ◌^◌, ◌≤◌, ◌<◌, ◌≡◌, refl, Bool, false, none, some, Option, List, [], ◌∷◌, ◌++◌,
  String, arith, if◌then◌else◌, nat_eq, length, concat, ◌∙◌, ◌≢◌, inl, inr, Bool-cases,
}
use game_server_manager.Base.Int.{ℤ}
use game_server_manager.Base.Decimal.{itoa}
use game_server_manager.Rcon.{
  Bytes, RconPacket, ReadError, ReadResult, got, read_failed, rcon_packet_bytes, rcon_read,
}
use game_server_manager.Rcon.Robust.{rcon_read-some}
use game_server_manager.Rcon.Codec.{packet_format, rcon_packet_bytes-format, rcon_read-format}

-- The other end of a connection: which of our writes fail, and the chunks that it sends.
pub record Peer : Type 0 where
  pub write_fails : ℕ → Bool
  pub inbound : List Bytes

pub data RconError : Type 0 where
  connect_failed auth_send_failed wrong_password command_send_failed : RconError
  auth_read_failed command_read_failed : ReadError → RconError

pub data Outcome : Type 0 where
  returned : Bytes → Outcome
  failed : RconError → Outcome
  panicked : Outcome

-- What the call returns, and the packets that it wrote, in order.
pub record Trace : Type 0 where
  pub outcome : Outcome
  pub sent : List Bytes

abbrev ends : Outcome → List Bytes → Trace
ends o sent = record { outcome = o; sent = sent }

abbrev read_reply : List Bytes → Option (ReadResult RconPacket) → Trace
read_reply sent none = ends panicked sent
read_reply sent (some (read_failed e)) = ends (failed (command_read_failed e)) sent
read_reply sent (some (got resp left)) = ends (returned resp.body) sent

send_command : Peer → List Bytes → List Bytes → Option Bytes → Trace
send_command peer sent left none = ends panicked sent
send_command peer sent left (some buf) =
    if peer.write_fails 1
    then ends (failed command_send_failed) sent
    else read_reply (sent ++ buf ∷ []) (rcon_read left)

check_auth : Peer → List Bytes → Bytes → Option (ReadResult RconPacket) → Trace
check_auth peer sent command none = ends panicked sent
check_auth peer sent command (some (read_failed e)) = ends (failed (auth_read_failed e)) sent
check_auth peer sent command (some (got resp left)) =
    if nat_eq resp.id (2 ^ 32 - 1)
    then ends (failed wrong_password) sent
    else send_command peer sent left (rcon_packet_bytes 2 2 command)

authenticate : Peer → (command : Bytes) → Option Bytes → Trace
authenticate peer command none = ends panicked []
authenticate peer command (some buf) =
    if peer.write_fails 0
    then ends (failed auth_send_failed) []
    else check_auth peer (buf ∷ []) command (rcon_read peer.inbound)

talk : (password command : Bytes) → Option Peer → Trace
talk password command none = ends (failed connect_failed) []
talk password command (some peer) = authenticate peer command (rcon_packet_bytes 1 3 password)

unfoldable pub send_rcon_command :
    (String → Option Peer) → (host : String) (port : ℤ) (password command : Bytes) → Trace
unfolding talk authenticate check_auth send_command
send_rcon_command dial host port password command =
    talk password command (dial (String.◌++◌ host (String.◌++◌ ":" (itoa port))))

module _ (dial : String → Option Peer) (host : String) (port : ℤ) (peer : Peer)
    (password command : Bytes)
    (dialled : dial (String.◌++◌ host (String.◌++◌ ":" (itoa port))) ≡ some peer)
    (short_password : length password + 14 < 2 ^ 31) (writes : peer.write_fails 0 ≡ false) where
  authenticated :
      send_rcon_command dial host port password command
      ≡ check_auth peer (packet_format 1 3 password ∷ []) command (rcon_read peer.inbound)
  unfolding send_rcon_command
  authenticated = rw (dialled, rcon_packet_bytes-format 1 3 password short_password, writes) refl

  -- A server that answers the password with id -1 ends the call with the password error, and the
  -- command is never written.
  send_rcon_command-wrong_password :
      (typ : ℕ) (body extra : Bytes)
      → typ < 2 ^ 32
      → length body ≤ 4086
      → concat peer.inbound ≡ packet_format (2 ^ 32 - 1) typ body ++ extra
      → send_rcon_command dial host port password command
        ≡ record { outcome = failed wrong_password; sent = packet_format 1 3 password ∷ [] }
  send_rcon_command-wrong_password typ body extra htyp hbody stream =
      let (left, reads, _) =
        rcon_read-format (2 ^ 32 - 1) typ body extra peer.inbound (omega arith) htyp hbody stream in
      authenticated ∙ (unfold check_auth in rw reads refl)

  -- A server that accepts the password and answers the command: the call returns the body of the
  -- answer, and has written the password packet and then the command packet.
  pub send_rcon_command-returns :
      (id typ id' typ' : ℕ) (body answer extra : Bytes)
      → id < 2 ^ 32 - 1
      → typ < 2 ^ 32
      → id' < 2 ^ 32
      → typ' < 2 ^ 32
      → length body ≤ 4086
      → length answer ≤ 4086
      → length command + 14 < 2 ^ 31
      → peer.write_fails 1 ≡ false
      → concat peer.inbound ≡ packet_format id typ body ++ (packet_format id' typ' answer ++ extra)
      → send_rcon_command dial host port password command ≡ record {
        outcome = returned answer;
        sent = packet_format 1 3 password ∷ packet_format 2 2 command ∷ [];
      }
  send_rcon_command-returns id typ id' typ' body answer extra hid htyp hid' htyp' hb ha hc w
        stream =
      let (mid, first, after) =
        rcon_read-format id typ body _ peer.inbound (omega arith) htyp hb stream in
      let (left, second, _) = rcon_read-format id' typ' answer extra mid hid' htyp' ha after in
      let accepted : nat_eq id (2 ^ 32 - 1) ≡ false = ground arith in
      authenticated
      ∙ (unfold check_auth send_command in
          rw (first, accepted, rcon_packet_bytes-format 2 2 command hc, w, second) refl)

Safe : Trace → Type 0
Safe t = t.outcome ≢ panicked

read_reply-Safe : (sent : List Bytes) (r : ReadResult RconPacket) → Safe (read_reply sent (some r))
unfolding Safe
read_reply-Safe sent (got resp left) = λ e. cc
read_reply-Safe sent (read_failed e) = λ e. cc

send_command-Safe :
    (peer : Peer) (sent left : List Bytes) (buf : Bytes)
    → Safe (send_command peer sent left (some buf))
unfolding Safe send_command
send_command-Safe peer sent left buf = elim (Bool-cases (peer.write_fails 1)) [
  | inl e ↦ rw e (λ e. cc)
  | inr e ↦
      let (r, reads) = rcon_read-some left in rw (e, reads) (read_reply-Safe (sent ++ buf ∷ []) r)
]

check_auth-Safe :
    (peer : Peer) (sent : List Bytes) (command : Bytes) (r : ReadResult RconPacket)
    → length command + 14 < 2 ^ 31
    → Safe (check_auth peer sent command (some r))
unfolding Safe check_auth
check_auth-Safe peer sent command (read_failed e) h = λ e. cc
check_auth-Safe peer sent command (got resp left) h =
    elim (Bool-cases (nat_eq resp.id (2 ^ 32 - 1))) [
      | inl e ↦ rw e (λ e. cc)
      | inr e ↦
          rw (e, rcon_packet_bytes-format 2 2 command h)
            (send_command-Safe peer sent left (packet_format 2 2 command))
    ]

talk-Safe :
    (password command : Bytes) (peer : Option Peer)
    → length password + 14 < 2 ^ 31
    → length command + 14 < 2 ^ 31
    → Safe (talk password command peer)
unfolding Safe talk authenticate
talk-Safe password command none h k = λ e. cc
talk-Safe password command (some peer) h k = elim (Bool-cases (peer.write_fails 0)) [
  | inl e ↦ rw (rcon_packet_bytes-format 1 3 password h, e) (λ e. cc)
  | inr e ↦
      let (r, reads) = rcon_read-some peer.inbound in
      rw (rcon_packet_bytes-format 1 3 password h, e, reads)
        (check_auth-Safe peer (packet_format 1 3 password ∷ []) command r k)
]

-- Whatever the dialled server sends, and whichever writes fail, the call returns a body or an error
-- and does not panic, for a password and a command that an int32 size can count.
pub send_rcon_command-ne-panicked :
    (dial : String → Option Peer) (host : String) (port : ℤ) (password command : Bytes)
    → length password + 14 < 2 ^ 31
    → length command + 14 < 2 ^ 31
    → (send_rcon_command dial host port password command).outcome ≢ panicked
unfolding send_rcon_command Safe
send_rcon_command-ne-panicked dial host port password command h k =
    talk-Safe password command (dial (String.◌++◌ host (String.◌++◌ ":" (itoa port)))) h k
