-- ===== src/Base/Atoi.antt =====
-- strconv.Atoi.
use Prim.Native.String
use Prim.Native.Char.{Char, code}
use Prim.Native.String.{String, [], ◌∷◌}
use mathlib.Core.Option.{some-injective}
use text.Mathlib.TextLemmas.{cons-append, nil-append}
use game_server_manager.Base.{
  ℕ, zero, suc, ◌+◌, ◌-◌, ◌*◌, ◌/◌, ◌%◌, ◌<◌, ◌≡◌, refl, ap, subst, ◌∙◌, Bool, true, ◌&&◌, Option,
  none, some, if◌then◌else◌, ltb, leb, nat_eq, inl, inr, arith, Bool-cases, ltb→lt, sym, str_eq,
  eq_iff, false,
}
use game_server_manager.Base.Text.{NoSlash, NoSlash-append, is_slash}
use game_server_manager.Base.Int.{ℤ, pos, negsuc, Fits, fits}
use game_server_manager.Base.Decimal.{digit, digits_of, itoa}

abbrev is_digit : Char → Bool
is_digit c = leb b'0' (code c) && leb (code c) b'9'

-- The value of digits, behind others of the value `acc`; `none` is a syntax error.
unfoldable pub digits_value : ℕ → String → Option ℕ
digits_value acc [] = some acc
digits_value acc (c ∷ s) =
    let rest = digits_value (acc * 10 + (code c - b'0')) s in if is_digit c then rest else none

abbrev unsigned : String → Option ℕ
unsigned [] = none
unsigned (c ∷ s) = digits_value 0 (c ∷ s)

-- -n
abbrev pub negate : ℕ → ℤ
negate zero = pos 0
negate (suc n) = negsuc n

abbrev signed : (ℕ → ℤ) → Option ℕ → Option ℤ
signed sign none = none
signed sign (some n) = if fits 63 (sign n) then some (sign n) else none

-- A sign, then at least one digit; a value that does not fit an int is an error too.
unfoldable pub atoi : String → Option ℤ
atoi [] = none
atoi (c ∷ s) =
    if nat_eq (code c) b'-'
    then signed negate (unsigned s)
    else if nat_eq (code c) b'+'
    then signed pos (unsigned s)
    else signed pos (unsigned (c ∷ s))

fits-Fits : (n : ℤ) → fits 63 n ≡ true → Fits 63 n
fits-Fits n h = ground arith

-- What Atoi accepts is an int.
pub atoi-Fits : (s : String) (n : ℤ) → atoi s ≡ some n → Fits 63 n
unfolding atoi
atoi-Fits [] n h = cc
atoi-Fits (c ∷ s) n h = elim (Bool-cases (nat_eq (code c) b'-')) [
  | inl e ↦ signed-Fits negate (unsigned s) (rw e at h)
  | inr e ↦ elim (Bool-cases (nat_eq (code c) b'+')) [
    | inl f ↦ signed-Fits pos (unsigned s) (rw (e, f) at h)
    | inr f ↦ signed-Fits pos (unsigned (c ∷ s)) (rw (e, f) at h)
  ]
]
  where
    signed-Fits : (sign : ℕ → ℤ) (o : Option ℕ) → signed sign o ≡ some n → Fits 63 n
    signed-Fits sign none h = cc
    signed-Fits sign (some m) h = elim (Bool-cases (fits 63 (sign m))) [
      | inl e ↦ subst (Fits 63) (some-injective (sign m) n (rw e at h)) (fits-Fits (sign m) e)
      | inr e ↦ let bad : ◌≡◌ {A = Option ℤ} none (some n) = rw e at h in absurd (cc)
    ]

-- The text of a digit is one character.
digit-cons :
    (d : ℕ) → d < 10 → (c : Char) × (digit d ≡ c ∷ "") × (is_digit c ≡ true) × (code c ≡ b'0' + d)
digit-cons zero h = ("0", refl, refl, refl)
digit-cons (suc zero) h = ("1", refl, refl, refl)
digit-cons (suc (suc zero)) h = ("2", refl, refl, refl)
digit-cons (suc (suc (suc zero))) h = ("3", refl, refl, refl)
digit-cons (suc (suc (suc (suc zero)))) h = ("4", refl, refl, refl)
digit-cons (suc (suc (suc (suc (suc zero))))) h = ("5", refl, refl, refl)
digit-cons (suc (suc (suc (suc (suc (suc zero)))))) h = ("6", refl, refl, refl)
digit-cons (suc (suc (suc (suc (suc (suc (suc zero))))))) h = ("7", refl, refl, refl)
digit-cons (suc (suc (suc (suc (suc (suc (suc (suc zero)))))))) h = ("8", refl, refl, refl)
digit-cons (suc (suc (suc (suc (suc (suc (suc (suc (suc zero))))))))) h = ("9", refl, refl, refl)
digit-cons (suc (suc (suc (suc (suc (suc (suc (suc (suc (suc n)))))))))) h = absurd (omega arith)

digits_value-one : (acc d : ℕ) → d < 10 → digits_value acc (digit d) ≡ some (acc * 10 + d)
unfolding digits_value
digits_value-one acc d h =
    let (c, text, good, value) = digit-cons d h in rw (text, good) (ap some (omega (arith, value)))

digits_value-append :
    (s t : String) (acc n : ℕ)
    → digits_value acc s ≡ some n
    → digits_value acc (String.◌++◌ s t) ≡ digits_value n t
unfolding digits_value
digits_value-append [] t acc n h = rw (nil-append t) (cc)
digits_value-append (c ∷ s) t acc n h = elim (Bool-cases (is_digit c)) [
  | inl e ↦
      rw (cons-append c s t, e) (digits_value-append s t (acc * 10 + (code c - b'0')) n (rw e at h))
  | inr e ↦ let bad : ◌≡◌ {A = Option ℕ} none (some n) = rw e at h in absurd (cc)
]

digits_value-digits_of : (fuel n : ℕ) → n < fuel → digits_value 0 (digits_of fuel n) ≡ some n
unfolding digits_of
digits_value-digits_of zero n h = absurd (omega arith)
digits_value-digits_of (suc fuel) n h = elim (Bool-cases (ltb n 10)) [
  | inl e ↦ rw e (digits_value-one 0 n (ltb→lt n 10 e) ∙ ap some (omega arith))
  | inr e ↦ rw e (
      digits_value-append (digits_of fuel (n / 10)) (digit (n % 10)) 0 (n / 10)
        (digits_value-digits_of fuel (n / 10) (ground arith))
      ∙ digits_value-one (n / 10) (n % 10) (omega arith)
      ∙ ap some (omega arith))
]

-- Digits begin with a digit.
digits_of-cons :
    (fuel n : ℕ)
    → n < fuel
    → (c : Char) × (s : String) × (digits_of fuel n ≡ c ∷ s) × (is_digit c ≡ true)
unfolding digits_of
digits_of-cons zero n h = absurd (omega arith)
digits_of-cons (suc fuel) n h = elim (Bool-cases (ltb n 10)) [
  | inl e ↦ let (c, text, good, _) = digit-cons n (ltb→lt n 10 e) in (c, "", rw e text, good)
  | inr e ↦
      let (c, s, text, good) = digits_of-cons fuel (n / 10) (ground arith) in
      (c, String.◌++◌ s (digit (n % 10)), rw (e, text) (cons-append c s (digit (n % 10))), good)
]

-- Atoi reads back what Itoa writes.
pub atoi-itoa : (n : ℤ) → Fits 63 n → atoi (itoa n) ≡ some n
unfolding atoi itoa
atoi-itoa (pos n) h =
    let (c, s, text, good) = digits_of-cons (suc n) n (omega arith) in
    let value : digits_value 0 (c ∷ s) ≡ some n =
      rw text at (digits_value-digits_of (suc n) n (omega arith)) in
    rw (text) (ground (arith, value))
atoi-itoa (negsuc n) h =
    let (c, s, text, good) = digits_of-cons (suc (suc n)) (suc n) (omega arith) in
    let value : digits_value 0 (c ∷ s) ≡ some (suc n) =
      rw text at (digits_value-digits_of (suc (suc n)) (suc n) (omega arith)) in
    rw (text, cons-append "-" "" (c ∷ s), nil-append (c ∷ s)) (ground (arith, value))

digits_of-NoSlash : (fuel n : ℕ) → n < fuel → NoSlash (digits_of fuel n)
unfolding digits_of
digits_of-NoSlash zero n h = absurd (omega arith)
digits_of-NoSlash (suc fuel) n h = elim (Bool-cases (ltb n 10)) [
  | inl e ↦ rw e (digit-NoSlash n (ltb→lt n 10 e))
  | inr e ↦ rw e (
      NoSlash-append (digits_of fuel (n / 10)) (digit (n % 10))
        (digits_of-NoSlash fuel (n / 10) (ground arith)) (digit-NoSlash (n % 10) (omega arith)))
]
  where
    digit-NoSlash : (d : ℕ) → d < 10 → NoSlash (digit d)
    digit-NoSlash d h =
        let (c, text, good, value) = digit-cons d h in
        let slash : is_slash c ≡ false = ground arith in subst NoSlash (sym text) (slash, tt)

pub itoa-NoSlash : (n : ℤ) → NoSlash (itoa n)
unfolding itoa
itoa-NoSlash (pos n) = digits_of-NoSlash (suc n) n (omega arith)
itoa-NoSlash (negsuc n) =
    NoSlash-append "-" (digits_of (suc (suc n)) (suc n)) (refl, tt)
      (digits_of-NoSlash (suc (suc n)) (suc n) (omega arith))

pub itoa-not_empty : (n : ℤ) → Fits 63 n → str_eq (itoa n) "" ≡ false
unfolding atoi
itoa-not_empty n h = elim (Bool-cases (str_eq (itoa n) "")) [
  | inl e ↦
      let bad : ◌≡◌ {A = Option ℤ} none (some n) =
        ap atoi (sym ((eq_iff (itoa n) "").0 e)) ∙ atoi-itoa n h in
      absurd (cc)
  | inr e ↦ e
]
