-- ===== src/Rcon.antt =====
-- agent/rcon.go: Source RCON packets, and one authenticated command over a TCP connection.
-- An int32 is its bit pattern, a number below 2 ^ 32; a byte slice or a Go string that crosses the
-- wire is the list of its bytes. `none` is a Go panic. The network is a parameter: an address
-- either cannot be dialled or leads to a peer, which decides which writes fail and what arrives.
pub mod Word
pub mod Stream
pub mod Codec
pub mod Session
pub mod Robust
mod Tests
use Prim.Native.Nat.{bit_or}
use game_server_manager.Base.{
  ℕ, zero, suc, ◌+◌, ◌-◌, ◌*◌, ◌/◌, ◌%◌, ◌^◌, Bool, true, false, ◌||◌, Option, none, some, List, [],
  ◌∷◌, ◌++◌, String, if◌then◌else◌, ltb, leb, nat_eq, length, take, drop, replicate,
}

abbrev pub Bytes : Type 0
Bytes = List ℕ

-- Signed comparison of int32 patterns: adding 2 ^ 31 turns it into the unsigned one.
abbrev pub lt_int32 : ℕ → ℕ → Bool
lt_int32 a b = ltb ((a + 2 ^ 31) % 2 ^ 32) ((b + 2 ^ 31) % 2 ^ 32)

-- buf[i] = v, which panics out of range.
unfoldable pub set? : Bytes → ℕ → ℕ → Option Bytes
set? [] i v = none
set? (x ∷ xs) zero v = some (v ∷ xs)
set? (x ∷ xs) (suc i) v = elim (set? xs i v) [ none ↦ none | some ys ↦ some (x ∷ ys) ]

infixl 5 ◌>>=◌
abbrev pub ◌>>=◌ {ℓ κ} : {A : Type ℓ} {B : Type κ} → Option A → (A → Option B) → Option B
none >>= f = none
some a >>= f = f a

-- writeInt32(buf[off:], v): the byte conversions keep the low 8 bits of each shift.
unfoldable pub write_int32 : Bytes → ℕ → ℕ → Option Bytes
unfolding set?
write_int32 buf off v = do
  buf ← set? buf off (v % 256)
  buf ← set? buf (off + 1) (v / 2 ^ 8 % 256)
  buf ← set? buf (off + 2) (v / 2 ^ 16 % 256)
  set? buf (off + 3) (v / 2 ^ 24 % 256)

-- readInt32(buf[off:]), for the four bytes that stand there.
unfoldable pub read_int32 : (b0 b1 b2 b3 : ℕ) → ℕ
read_int32 b0 b1 b2 b3 =
    bit_or (bit_or (bit_or b0 (b1 * 2 ^ 8)) (b2 * 2 ^ 16)) (b3 * 2 ^ 24 % 2 ^ 32)

abbrev pub read_int32_at : Bytes → Option ℕ
read_int32_at (b0 ∷ b1 ∷ b2 ∷ b3 ∷ _) = some (read_int32 b0 b1 b2 b3)
read_int32_at _ = none

-- copy(buf, src): as many bytes as both have.
abbrev pub overwrite : Bytes → Bytes → Bytes
overwrite [] src = []
overwrite (x ∷ xs) [] = x ∷ xs
overwrite (x ∷ xs) (s ∷ src) = s ∷ overwrite xs src

-- copy(buf[off:], src): slicing past the end panics.
abbrev pub copy_at : Bytes → ℕ → Bytes → Option Bytes
copy_at buf zero src = some (overwrite buf src)
copy_at [] (suc off) src = none
copy_at (x ∷ xs) (suc off) src = elim (copy_at xs off src) [ none ↦ none | some ys ↦ some (x ∷ ys) ]

-- make([]byte, n) for an int32 n: a negative length panics.
abbrev pub make_bytes : ℕ → Option Bytes
make_bytes n = if lt_int32 n 0 then none else some (replicate n 0)

-- The buffer that rconSend hands to conn.Write.
unfoldable pub rcon_packet_bytes : (id typ : ℕ) → Bytes → Option Bytes
unfolding write_int32
rcon_packet_bytes id typ body = do
  let size = (10 + length body) % 2 ^ 32
  buf ← make_bytes ((4 + size) % 2 ^ 32)
  buf ← write_int32 buf 0 size
  buf ← write_int32 buf 4 id
  buf ← write_int32 buf 8 typ
  copy_at buf 12 body

pub record RconPacket : Type 0 where
  pub size : ℕ
  pub id : ℕ
  pub typ : ℕ
  pub body : Bytes

pub data ReadError : Type 0 where
  conn_error : ReadError
  invalid_packet_size : ℕ → ReadError

-- What a read gives, with what the connection will still deliver.
pub data ReadResult {ℓ} (A : Type ℓ) : Type ℓ where
  got : A → List Bytes → ReadResult A
  read_failed : ReadError → ReadResult A

-- readFull(conn, buf) into a buffer of n bytes. Each conn.Read delivers the next chunk, cut to the
-- room that is left in the buffer; after the last chunk a read fails.
unfoldable pub read_full : ℕ → List Bytes → ReadResult Bytes
read_full zero chunks = got [] chunks
read_full (suc n) [] = read_failed conn_error
read_full (suc n) (c ∷ chunks) =
    let rest = read_full (suc n - length c) chunks in
    if ltb (suc n) (length c)
    then got (take (suc n) c) (drop (suc n) c ∷ chunks)
    else elim rest [ got bs left ↦ got (c ++ bs) left | read_failed e ↦ read_failed e ]

-- bodyEnd := len(rest) - 2; p.body = string(rest[8:bodyEnd]) if bodyEnd > 8
abbrev pub packet_body : Bytes → Bytes
packet_body rest = if ltb 8 (length rest - 2) then take (length rest - 2 - 8) (drop 8 rest) else []

abbrev pub parse_rest : ℕ → Bytes → List Bytes → Option (ReadResult RconPacket)
parse_rest size rest chunks = do
  id ← read_int32_at rest
  typ ← read_int32_at (drop 4 rest)
  some (got (record { size = size; id = id; typ = typ; body = packet_body rest }) chunks)

unfoldable pub read_body : ℕ → List Bytes → Option (ReadResult RconPacket)
read_body size chunks =
    if lt_int32 size 10 || lt_int32 4096 size
    then some (read_failed (invalid_packet_size size))
    else elim (read_full size chunks) [
      | read_failed e ↦ some (read_failed e)
      | got rest left ↦ parse_rest size rest left
    ]

-- rconRead(conn)
unfoldable pub rcon_read : List Bytes → Option (ReadResult RconPacket)
rcon_read chunks = elim (read_full 4 chunks) [
  | read_failed e ↦ some (read_failed e)
  | got size_buf left ↦ read_int32_at size_buf >>= λ size. read_body size left
]
