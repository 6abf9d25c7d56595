-- ===== src/Base/Text.antt =====
-- What the code uses of Go's package strings: TrimPrefix, and Split at a slash.
use Prim.Native.Char.{Char, code}
use Prim.Native.String.{String, [], ◌∷◌}
use Prim.Native.String
use mathlib.Core.List.{List}
use text.Mathlib.TextLemmas.{cons-append, nil-append}
use game_server_manager.Base.{
  ◌≡◌, refl, ap, ap₂, Bool, true, false, Option, none, some, arith, if◌then◌else◌, nat_eq, inl, inr,
  sym, subst, ◌∙◌, str_eq, eq_iff, Bool-cases,
}

-- What follows a prefix, if the text begins with it.
unfoldable pub after_prefix : String → String → Option String
after_prefix [] s = some s
after_prefix (c ∷ p) [] = none
after_prefix (c ∷ p) (d ∷ s) = if nat_eq (code c) (code d) then after_prefix p s else none

abbrev pub or_text : Option String → String → String
or_text none s = s
or_text (some t) s = t

-- strings.TrimPrefix
unfoldable pub trim_prefix : String → String → String
trim_prefix s p = or_text (after_prefix p s) s

abbrev pub is_slash : Char → Bool
is_slash c = nat_eq (code c) b'/'

-- strings.Split(s, "/"): the part before the first slash, and the parts behind it.
unfoldable pub first_part : String → String
first_part [] = ""
first_part (c ∷ s) = if is_slash c then "" else c ∷ first_part s

unfoldable pub later_parts : String → List String
later_parts [] = List.[]
later_parts (c ∷ s) = if is_slash c then List.◌∷◌ (first_part s) (later_parts s) else later_parts s

abbrev pub split_slash : String → List String
split_slash s = List.◌∷◌ (first_part s) (later_parts s)

-- A text without a slash.
abbrev pub NoSlash : String → Type 0
NoSlash [] = Unit
NoSlash (c ∷ s) = (is_slash c ≡ false) × NoSlash s

pub after_prefix-append : (p s : String) → after_prefix p (String.◌++◌ p s) ≡ some s
unfolding after_prefix
after_prefix-append [] s = ap some (nil-append s)
after_prefix-append (c ∷ p) s = rw (cons-append c p s) (ground (arith, after_prefix-append p s))

first_part-NoSlash : (s : String) → NoSlash s → first_part s ≡ s
unfolding first_part
first_part-NoSlash [] h = refl
first_part-NoSlash (c ∷ s) h = rw h.0 (ap (◌∷◌ c) (first_part-NoSlash s h.1))

later_parts-NoSlash : (s : String) → NoSlash s → later_parts s ≡ List.[]
unfolding later_parts
later_parts-NoSlash [] h = refl
later_parts-NoSlash (c ∷ s) h = rw h.0 (later_parts-NoSlash s h.1)

pub split_slash-NoSlash : (s : String) → NoSlash s → split_slash s ≡ List.◌∷◌ s List.[]
split_slash-NoSlash s h = ap₂ List.◌∷◌ (first_part-NoSlash s h) (later_parts-NoSlash s h)

first_part-append : (s t : String) → NoSlash s → first_part (String.◌++◌ s (String.◌++◌ "/" t)) ≡ s
unfolding first_part
first_part-append [] t h = rw (nil-append, cons-append) refl
first_part-append (c ∷ s) t h =
    rw (cons-append c s (String.◌++◌ "/" t), h.0) (ap (◌∷◌ c) (first_part-append s t h.1))

later_parts-append :
    (s t : String) → NoSlash s → later_parts (String.◌++◌ s (String.◌++◌ "/" t)) ≡ split_slash t
unfolding later_parts
later_parts-append [] t h = rw (nil-append, cons-append, nil-append) refl
later_parts-append (c ∷ s) t h =
    rw (cons-append c s (String.◌++◌ "/" t), h.0) (later_parts-append s t h.1)

pub split_slash-append :
    (s t : String)
    → NoSlash s
    → split_slash (String.◌++◌ s (String.◌++◌ "/" t)) ≡ List.◌∷◌ s (split_slash t)
split_slash-append s t h = ap₂ List.◌∷◌ (first_part-append s t h) (later_parts-append s t h)

-- Neither text begins with the other.
unfoldable pub differs : String → String → Bool
differs [] q = false
differs (c ∷ p) [] = false
differs (c ∷ p) (d ∷ q) = if nat_eq (code c) (code d) then differs p q else true

pub after_prefix-differs :
    (p q s : String) → differs p q ≡ true → after_prefix p (String.◌++◌ q s) ≡ none
unfolding after_prefix differs
after_prefix-differs [] q s h = cc
after_prefix-differs (c ∷ p) [] s h = cc
after_prefix-differs (c ∷ p) (d ∷ q) s h = elim (Bool-cases (nat_eq (code c) (code d))) [
  | inl e ↦ rw (cons-append d q s, e) (after_prefix-differs p q s (rw e at h))
  | inr e ↦ rw (cons-append d q s, e) refl
]

-- A text with a prefix is no text without it.
pub not_equal-append :
    (p s t : String) → after_prefix p t ≡ none → str_eq (String.◌++◌ p s) t ≡ false
not_equal-append p s t h = elim (Bool-cases (str_eq (String.◌++◌ p s) t)) [
  | inl e ↦
      let same = (eq_iff (String.◌++◌ p s) t).0 e in
      let bad : ◌≡◌ {A = Option String} none (some s) =
        sym h ∙ ap (after_prefix p) (sym same) ∙ after_prefix-append p s in
      absurd (cc)
  | inr e ↦ e
]

pub NoSlash-append : (s t : String) → NoSlash s → NoSlash t → NoSlash (String.◌++◌ s t)
NoSlash-append [] t h k = subst NoSlash (sym (nil-append t)) k
NoSlash-append (c ∷ s) t h k =
    subst NoSlash (sym (cons-append c s t)) (h.0, NoSlash-append s t h.1 k)
