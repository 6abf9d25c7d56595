-- ===== src/Rcon/Word.antt =====
-- writeInt32 and readInt32 (agent/rcon.go).
use Prim.Native.Nat.{bit_or}
use game_server_manager.Base.{ℕ, ◌+◌, ◌*◌, ◌/◌, ◌%◌, ◌^◌, ◌<◌, ◌≡◌, refl, arith, [], ◌∷◌}
use game_server_manager.Base.Bits.{bit_or_low_high}
use game_server_manager.Rcon.{Bytes, read_int32}

-- The four bytes of an int32, least significant first.
abbrev pub int32_bytes : ℕ → Bytes
int32_bytes v = v % 256 ∷ v / 2 ^ 8 % 256 ∷ v / 2 ^ 16 % 256 ∷ v / 2 ^ 24 % 256 ∷ []

-- On bytes, readInt32 is the little-endian value.
pub read_int32-sum :
    (b0 b1 b2 b3 : ℕ)
    → b0 < 256
    → b1 < 256
    → b2 < 256
    → b3 < 256
    → read_int32 b0 b1 b2 b3 ≡ b0 + b1 * 2 ^ 8 + b2 * 2 ^ 16 + b3 * 2 ^ 24
unfolding read_int32
read_int32-sum b0 b1 b2 b3 h0 h1 h2 h3 =
    let low : bit_or b0 (b1 * 2 ^ 8) ≡ b0 + b1 * 2 ^ 8 = bit_or_low_high 8 b0 b1 h0 in
    let mid = bit_or_low_high 16 (b0 + b1 * 2 ^ 8) b2 (omega arith) in
    let high = bit_or_low_high 24 (b0 + b1 * 2 ^ 8 + b2 * 2 ^ 16) b3 (omega arith) in
    let top : b3 * 2 ^ 24 % 2 ^ 32 ≡ b3 * 2 ^ 24 = omega arith in rw (low, mid, top, high) refl

pub read_int32-bytes :
    (v : ℕ)
    → v < 2 ^ 32
    → read_int32 (v % 256) (v / 2 ^ 8 % 256) (v / 2 ^ 16 % 256) (v / 2 ^ 24 % 256) ≡ v
read_int32-bytes v h = omega (
  arith,
  read_int32-sum (v % 256) (v / 2 ^ 8 % 256) (v / 2 ^ 16 % 256) (v / 2 ^ 24 % 256) (omega arith)
      (omega arith) (omega arith) (omega arith),
)
