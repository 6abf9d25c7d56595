-- ===== src/Base/Decimal.antt =====
-- strconv.Itoa and the `%d` of fmt.
use Prim.Native.String
use Prim.Native.String.{String}
use game_server_manager.Base.{
  ℕ, zero, suc, ◌/◌, ◌%◌, ◌<◌, ◌≡◌, refl, if◌then◌else◌, ltb, nat_eq, inl, inr, arith, Bool-cases,
}
use game_server_manager.Base.Int.{ℤ, pos, negsuc}

abbrev pub digit : ℕ → String
digit d =
    if nat_eq d 0
    then "0"
    else if nat_eq d 1
    then "1"
    else if nat_eq d 2
    then "2"
    else if nat_eq d 3
    then "3"
    else if nat_eq d 4
    then "4"
    else if nat_eq d 5
    then "5"
    else if nat_eq d 6
    then "6"
    else if nat_eq d 7
    then "7"
    else if nat_eq d 8
    then "8"
    else "9"

-- The digits of n, where the fuel is above n: n / 10 is below n as long as n has two digits.
unfoldable pub digits_of : ℕ → ℕ → String
digits_of zero n = ""
digits_of (suc fuel) n =
    let high = digits_of fuel (n / 10) in
    let long = String.◌++◌ high (digit (n % 10)) in if ltb n 10 then digit n else long

unfoldable pub itoa : ℤ → String
unfolding digits_of
itoa (pos n) = digits_of (suc n) n
itoa (negsuc n) = String.◌++◌ "-" (digits_of (suc (suc n)) (suc n))

-- More fuel than the number gives the same digits.
pub digits_of-enough : (fuel more n : ℕ) → n < fuel → n < more → digits_of fuel n ≡ digits_of more n
unfolding digits_of
digits_of-enough zero more n h k = absurd (omega arith)
digits_of-enough (suc fuel) zero n h k = absurd (omega arith)
digits_of-enough (suc fuel) (suc more) n h k = elim (Bool-cases (ltb n 10)) [
  | inl e ↦ rw e refl
  | inr e ↦ rw (e, digits_of-enough fuel more (n / 10) (ground arith) (ground arith)) refl
]
