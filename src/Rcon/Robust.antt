-- ===== src/Rcon/Robust.antt =====
-- What a server may send (agent/rcon.go rconRead): any bytes.
use game_server_manager.Base.{
  ℕ, ◌≤◌, ◌≡◌, refl, ap, ◌∙◌, inl, inr, false, ◌||◌, Option, some, List, [], ◌∷◌, arith, length,
  drop, length-take, length-drop, concat, Bool-cases,
}
use game_server_manager.Rcon.{
  Bytes, RconPacket, ReadResult, got, read_failed, invalid_packet_size, packet_body, read_int32_at,
  lt_int32, parse_rest, read_body, read_full, rcon_read, ◌>>=◌,
}
use game_server_manager.Rcon.Stream.{ReadsFlat, enough, read_full-ReadsFlat}

read_int32_at-some : (bs : Bytes) → 4 ≤ length bs → (v : ℕ) × (read_int32_at bs ≡ some v)
read_int32_at-some [] h = absurd (omega arith)
read_int32_at-some (a ∷ []) h = absurd (omega arith)
read_int32_at-some (a ∷ b ∷ []) h = absurd (omega arith)
read_int32_at-some (a ∷ b ∷ c ∷ []) h = absurd (omega arith)
read_int32_at-some (a ∷ b ∷ c ∷ d ∷ bs) h = (_, refl)

accepted-le : (size : ℕ) → lt_int32 size 10 ≡ false → 10 ≤ size
accepted-le size h = ground arith

parse_rest-some :
    (size : ℕ) (rest : Bytes) (left : List Bytes)
    → 10 ≤ length rest
    → (r : ReadResult RconPacket) × (parse_rest size rest left ≡ some r)
parse_rest-some size rest left h =
    let (id, first) = read_int32_at-some rest (omega arith) in
    let (typ, second) = read_int32_at-some (drop 4 rest) (omega (arith, length-drop 4 rest)) in
    (
      got (record { size = size; id = id; typ = typ; body = packet_body rest }) left,
      rw (first, second) refl,
    )

filled :
    {n : ℕ} {stream bs : Bytes} {left : List Bytes}
    → ReadsFlat n stream (got bs left)
    → length bs ≡ n
filled {n} {stream} (enough fits taken _) = ap length taken ∙ omega (arith, length-take n stream)

abbrev body_of : ℕ → ReadResult Bytes → Option (ReadResult RconPacket)
body_of size r = elim r [
  | read_failed e ↦ some (read_failed e)
  | got rest left ↦ parse_rest size rest left
]

body_of-some :
    (size : ℕ) (stream : Bytes) (r : ReadResult Bytes)
    → 10 ≤ size
    → ReadsFlat size stream r
    → (o : ReadResult RconPacket) × (body_of size r ≡ some o)
body_of-some size stream (read_failed e) h _ = (read_failed e, refl)
body_of-some size stream (got rest left) h reads =
    parse_rest-some size rest left (omega (arith, filled reads))

read_body-some :
    (size : ℕ) (chunks : List Bytes)
    → (r : ReadResult RconPacket) × (read_body size chunks ≡ some r)
unfolding read_body
read_body-some size chunks = elim (Bool-cases (lt_int32 size 10 || lt_int32 4096 size)) [
  | inl bad ↦ (read_failed (invalid_packet_size size), rw bad refl)
  | inr good ↦
      let (r, body) =
        body_of-some size (concat chunks) (read_full size chunks) (accepted-le size (ground arith))
          (read_full-ReadsFlat size chunks) in
      (r, rw good body)
]

abbrev sized : ReadResult Bytes → Option (ReadResult RconPacket)
sized r = elim r [
  | read_failed e ↦ some (read_failed e)
  | got size_buf left ↦ read_int32_at size_buf >>= λ size. read_body size left
]

sized-some :
    (stream : Bytes) (r : ReadResult Bytes)
    → ReadsFlat 4 stream r
    → (o : ReadResult RconPacket) × (sized r ≡ some o)
sized-some stream (read_failed e) _ = (read_failed e, refl)
sized-some stream (got size_buf left) reads =
    let (size, four) = read_int32_at-some size_buf (omega (arith, filled reads)) in
    let (r, body) = read_body-some size left in (r, rw four body)

-- Whatever arrives on the connection, rconRead returns: a packet or an error, never a panic.
pub rcon_read-some :
    (chunks : List Bytes) → (r : ReadResult RconPacket) × (rcon_read chunks ≡ some r)
unfolding rcon_read
rcon_read-some chunks =
    sized-some (concat chunks) (read_full 4 chunks) (read_full-ReadsFlat 4 chunks)
