-- ===== src/Protocol/Json.antt =====
-- What encoding/json writes and reads for the payloads of agent/protocol.go and master/protocol.go:
-- a struct is an object of its fields under the names of its tags, a field with omitempty is left
-- out if it is empty, a missing field is read as its zero value, and of a key's values the last
-- counts; that other cases of a key's letters are read too is left out. A decoded interface{} keeps
-- numbers as float64 and is written again from those.
use game_server_manager.Base.{
  ℕ, Bool, Option, none, some, List, [], ◌∷◌, String, if◌then◌else◌, str_eq, is_some,
}
use game_server_manager.Base.Int.{ℤ, pos}

mutual
  pub data Json : Type 0 where
    text : String → Json
    int : ℤ → Json
    float : ℕ → Json
    null : Json
    object : Fields → Json
    array : Items → Json

  pub data Fields : Type 0 where
    no_fields : Fields
    field : (key : String) → Json → Fields → Fields

  pub data Items : Type 0 where
    no_items : Items
    item : Json → Items → Items

-- `json:"key,omitempty"` of a text
abbrev pub opt_text : String → String → Fields → Fields
opt_text key s rest = if str_eq s "" then rest else field key (text s) rest

unfoldable pub get : String → Fields → Option Json
get key no_fields = none
get key (field k v rest) =
    let later = get key rest in
    if is_some later then later else if str_eq k key then some v else none

-- What a float64 makes of the integers of a document.
module _ (round : ℤ → ℤ) where
  unfoldable mutual
    pub through : Json → Json
    through (int n) = int (round n)
    through (object fs) = object (through_fields fs)
    through (array xs) = array (through_items xs)
    through (text s) = text s
    through (float n) = float n
    through null = null

    pub through_fields : Fields → Fields
    through_fields no_fields = no_fields
    through_fields (field key v rest) = field key (through v) (through_fields rest)

    pub through_items : Items → Items
    through_items no_items = no_items
    through_items (item v rest) = item (through v) (through_items rest)

abbrev pub and_then {ℓ} : {A B : Type ℓ} → Option A → (A → Option B) → Option B
and_then none f = none
and_then (some a) f = f a

-- Reading a field: a missing one and a null leave the zero value, another kind of value is an error.
abbrev pub text_of : Option Json → Option String
text_of none = some ""
text_of (some (text s)) = some s
text_of (some null) = some ""
text_of (some _) = none

abbrev pub int_of : Option Json → Option ℤ
int_of none = some (pos 0)
int_of (some (int n)) = some n
int_of (some null) = some (pos 0)
int_of (some _) = none

abbrev pub natural : ℤ → Option ℕ
natural (pos n) = some n
natural _ = none

abbrev pub uint64_of : Option Json → Option ℕ
uint64_of none = some 0
uint64_of (some (int n)) = natural n
uint64_of (some null) = some 0
uint64_of (some _) = none

abbrev pub float_of : Option Json → Option ℕ
float_of none = some 0
float_of (some (float n)) = some n
float_of (some null) = some 0
float_of (some _) = none

abbrev pub object_of : Option Json → Option Fields
object_of none = some no_fields
object_of (some (object fs)) = some fs
object_of (some null) = some no_fields
object_of (some _) = none

abbrev pub items_of : Option Json → Option Items
items_of none = some no_items
items_of (some (array xs)) = some xs
items_of (some null) = some no_items
items_of (some _) = none

-- map[string]string, whose keys differ
unfoldable pub env_fields : List (String × String) → Fields
env_fields [] = no_fields
env_fields ((k, v) ∷ rest) = field k (text v) (env_fields rest)

abbrev add_entry :
    String → Option String → Option (List (String × String)) → Option (List (String × String))
add_entry k v rest = and_then v λ s. and_then rest λ es. some ((k, s) ∷ es)

unfoldable pub env_of : Fields → Option (List (String × String))
env_of no_fields = some []
env_of (field k v rest) = add_entry k (text_of (some v)) (env_of rest)

-- The text that encoding/json writes for the bytes of a Go string, the bytes of a text that is read,
-- the nearest float64 of an integer, and whether a float64 is a number other than an infinity.
pub record Coding : Type 0 where
  pub written : List ℕ → String
  pub read : String → List ℕ
  pub round : ℤ → ℤ
  pub finite : ℕ → Bool
