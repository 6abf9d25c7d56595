-- ===== src/Base/Int.antt =====
-- Go's signed `int` (64 bits): an integer, with the wrap-around of a sum written out.
use Prim.Native.Nat.{ℕ, suc, ◌+◌, ◌-◌, ◌%◌, ◌^◌, ◌≤◌, ◌<◌}
use mathlib.Core.Path.{◌≡◌}
use mathlib.Core.Bool.{Bool, true, false, ◌&&◌}
use mathlib.Core.Logic.{◌↔◌}
use native.Mathlib.Omega.{arith}
use game_server_manager.Base.Tests.{ltb, leb, nat_eq, if◌then◌else◌, MapKey}

-- `negsuc n` is -(n + 1).
pub data ℤ : Type 0 where
  pos : ℕ → ℤ
  negsuc : ℕ → ℤ

abbrev pub pos_part : ℤ → ℕ
pos_part (pos n) = n
pos_part (negsuc n) = 0

abbrev pub neg_part : ℤ → ℕ
neg_part (pos n) = 0
neg_part (negsuc n) = suc n

-- a - b, as an integer.
abbrev pub sub_ℕ : ℕ → ℕ → ℤ
sub_ℕ a b = if leb b a then pos (a - b) else negsuc (b - a - 1)

infixl 65 ◌+ℤ◌
infix 50 ◌≤ℤ◌
unfoldable pub ◌+ℤ◌ : ℤ → ℤ → ℤ
a +ℤ b = sub_ℕ (pos_part a + pos_part b) (neg_part a + neg_part b)

abbrev pub ◌≤ℤ◌ : ℤ → ℤ → Type 0
a ≤ℤ b = pos_part a + neg_part b ≤ pos_part b + neg_part a

abbrev pub leb_ℤ : ℤ → ℤ → Bool
leb_ℤ a b = leb (pos_part a + neg_part b) (pos_part b + neg_part a)

abbrev pub int_eq : ℤ → ℤ → Bool
int_eq (pos a) (pos b) = nat_eq a b
int_eq (negsuc a) (negsuc b) = nat_eq a b
int_eq (pos _) (negsuc _) = false
int_eq (negsuc _) (pos _) = false

pub int_eq_iff : (a b : ℤ) → (int_eq a b ≡ true) ↔ (a ≡ b)
int_eq_iff a b = ground arith

instance abbrev pub int_key : MapKey ℤ
int_key = record { same = int_eq; same_iff = int_eq_iff }

-- The range of a signed type of w + 1 bits.
abbrev pub Fits : ℕ → ℤ → Type 0
Fits w a = (pos_part a < 2 ^ w) × (neg_part a ≤ 2 ^ w)

abbrev pub fits : ℕ → ℤ → Bool
fits w a = ltb (pos_part a) (2 ^ w) && leb (neg_part a) (2 ^ w)

-- The bit pattern of an int64, and the integer that a pattern stands for.
abbrev pub pattern64 : ℤ → ℕ
pattern64 (pos n) = n % 2 ^ 64
pattern64 (negsuc n) = 2 ^ 64 - 1 - n % 2 ^ 64

abbrev pub signed64 : ℕ → ℤ
signed64 w = if ltb w (2 ^ 63) then pos w else negsuc (2 ^ 64 - 1 - w)

-- Go's `a + b` on int: the sum modulo 2 ^ 64.
unfoldable pub add_int : ℤ → ℤ → ℤ
add_int a b = signed64 ((pattern64 a + pattern64 b) % 2 ^ 64)

-- Where the true sum fits, Go computes it.
pub add_int-eq-+ℤ : (a b : ℤ) → Fits 63 a → Fits 63 b → Fits 63 (a +ℤ b) → add_int a b ≡ a +ℤ b
unfolding add_int ◌+ℤ◌
add_int-eq-+ℤ a b ha hb h = ground arith
