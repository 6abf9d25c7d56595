-- ===== src/ContainerName.antt =====
-- The container's name of a new server (master/api_servers.go createServer). unicode.ToLower is a
-- parameter.
use Prim.Native.Char.{Char, code}
use Prim.Native.String
use Prim.Native.String.{String, [], ◌∷◌}
use text.Mathlib.TextLemmas.{cons-append, nil-append}
use game_server_manager.Base.{
  ◌≡◌, ◌≢◌, ◌⊎◌, inl, inr, refl, Bool, true, false, ◌||◌, arith, if◌then◌else◌, nat_eq,
}

abbrev pub is_separator : Char → Bool
is_separator c = nat_eq (code c) b' ' || nat_eq (code c) b'_' || nat_eq (code c) b'.'

abbrev dash : Char
dash = "-"

-- strings.NewReplacer(" ", "-", "_", "-", ".", "-").Replace
unfoldable pub replace_separators : String → String
replace_separators [] = []
replace_separators (c ∷ s) = (if is_separator c then dash else c) ∷ replace_separators s

module _ (lower : Char → Char) where
  -- strings.ToLower
  unfoldable pub to_lower : String → String
  to_lower [] = []
  to_lower (c ∷ s) = lower c ∷ to_lower s

  unfoldable pub container_name : String → String
  container_name name = String.◌++◌ "lanmaster-" (to_lower (replace_separators name))

-- A name with a dash for each space, underscore and dot, in lower case.
pub data IsDashed (lower : Char → Char) : String → String → Type 0 where
  ends : IsDashed lower [] []
  separator :
      (c : Char) {s t : String}
      → (code c ≡ b' ') ⊎ (code c ≡ b'_') ⊎ (code c ≡ b'.')
      → IsDashed lower s t
      → IsDashed lower (c ∷ s) (lower "-" ∷ t)
  other :
      (c : Char) {s t : String}
      → code c ≢ b' '
      → code c ≢ b'_'
      → code c ≢ b'.'
      → IsDashed lower s t
      → IsDashed lower (c ∷ s) (lower c ∷ t)

is_separator-cases :
    (c : Char)
    → ((is_separator c ≡ true) × ((code c ≡ b' ') ⊎ (code c ≡ b'_') ⊎ (code c ≡ b'.')))
      ⊎ ((is_separator c ≡ false) × (code c ≢ b' ') × (code c ≢ b'_') × (code c ≢ b'.'))
is_separator-cases c = ground arith

dashed :
    (lower : Char → Char) (s : String) → IsDashed lower s (to_lower lower (replace_separators s))
unfolding to_lower replace_separators
dashed lower [] = ends
dashed lower (c ∷ s) = elim (is_separator-cases c) [
  | inl (e, which) ↦ rw e (separator c which (dashed lower s))
  | inr (e, h, k, l) ↦ rw e (other c h k l (dashed lower s))
]

-- A container's name is "lanmaster-" and the dashed name of its server.
pub container_name-IsDashed :
    (lower : Char → Char) (name : String)
    → (t : String) × (container_name lower name ≡ String.◌++◌ "lanmaster-" t)
      × IsDashed lower name t
unfolding container_name
container_name-IsDashed lower name =
    (to_lower lower (replace_separators name), refl, dashed lower name)

abbrev pub NoSeparator : String → Type 0
NoSeparator [] = Unit
NoSeparator (c ∷ s) = (is_separator c ≡ false) × NoSeparator s

NoSeparator-append : (s t : String) → NoSeparator s → NoSeparator t → NoSeparator (String.◌++◌ s t)
NoSeparator-append [] t h k = rw nil-append k
NoSeparator-append (c ∷ s) t h k = rw cons-append (h.0, NoSeparator-append s t h.1 k)

module _ (lower : Char → Char)
    (lower_keeps : (c : Char) → is_separator c ≡ false → is_separator (lower c) ≡ false) where
  to_lower-NoSeparator : (s : String) → NoSeparator (to_lower lower (replace_separators s))
  unfolding to_lower replace_separators
  to_lower-NoSeparator [] = tt
  to_lower-NoSeparator (c ∷ s) =
      (ground (arith, lower_keeps c, lower_keeps dash refl), to_lower-NoSeparator s)

  -- A container's name holds no space, underscore or dot, whatever the server is called, as long as
  -- lower-casing makes none of these out of another character.
  container_name-NoSeparator : (name : String) → NoSeparator (container_name lower name)
  unfolding container_name
  container_name-NoSeparator name =
      NoSeparator-append "lanmaster-" (to_lower lower (replace_separators name)) (ground arith)
        (to_lower-NoSeparator name)

-- Names that differ only in which separator stands where have the same container.
pub data SameButSeparators : String → String → Type 0 where
  both_end : SameButSeparators [] []
  same_char : (c : Char) {s t : String} → SameButSeparators s t → SameButSeparators (c ∷ s) (c ∷ t)
  separators :
      (c d : Char) {s t : String}
      → is_separator c ≡ true
      → is_separator d ≡ true
      → SameButSeparators s t
      → SameButSeparators (c ∷ s) (d ∷ t)

replace-SameButSeparators :
    {s t : String} → SameButSeparators s t → replace_separators s ≡ replace_separators t
unfolding replace_separators
replace-SameButSeparators both_end = refl
replace-SameButSeparators (same_char c h) = rw (replace-SameButSeparators h) refl
replace-SameButSeparators (separators c d p q h) = rw (p, q, replace-SameButSeparators h) refl

-- Two servers whose names differ only in spaces, underscores and dots get one container name.
container_name_collides :
    (lower : Char → Char) {s t : String}
    → SameButSeparators s t
    → container_name lower s ≡ container_name lower t
unfolding container_name
container_name_collides lower h = rw (replace-SameButSeparators h) refl
