-- ===== src/Migrations/Tables.antt =====
-- The CREATE TABLE statements of master/db.go runMigrations, in an order that respects the references.
use game_server_manager.Base.{
  ◌≡◌, refl, ap, ◌∙◌, inl, inr, Bool, true, false, ◌&&◌, ◌||◌, Option, none, some, List, [], ◌∷◌,
  String, if◌then◌else◌, str_eq, eq_iff, is_some, lookup, insert, lookup-insert, or_else,
  or_else-none, or_else_assoc, string_key, All, Bool-cases, Option-cases,
}
use game_server_manager.Migrations.{
  Column, Table, Store, create_table, create, execute, referenced, references_exist,
}
use game_server_manager.Migrations.Statements.{create_all}
use game_server_manager.Migrations.Execution.{Executes, stops, then_executes}

abbrev pub Tables : Type 0
Tables = List (String × Table)

abbrev pub IsPresent : Tables → String → Type 0
IsPresent tables name = is_some (lookup name tables) ≡ true

abbrev one_of : String → List String → Bool
one_of x [] = false
one_of x (y ∷ ys) = str_eq y x || one_of x ys

abbrev refers_to : List String → Option String → Bool
refers_to known none = true
refers_to known (some name) = one_of name known

-- The columns refer to tables that are known only.
abbrev refer_to : List String → List (String × Column) → Bool
refer_to known [] = true
refer_to known ((_, c) ∷ columns) = refers_to known c.references && refer_to known columns

-- No table refers to a later one.
abbrev pub ordered : List String → Tables → Bool
ordered known [] = true
ordered known ((name, t) ∷ rest) = refer_to known t.columns && ordered (name ∷ known) rest

pub both : (a b : Bool) → (a && b) ≡ true → (a ≡ true) × (b ≡ true)
both true b h = (refl, h)
both false b h = absurd (cc)

one_of-IsPresent :
    (tables : Tables) (known : List String) (name : String)
    → All (IsPresent tables) known
    → one_of name known ≡ true
    → IsPresent tables name
one_of-IsPresent tables [] name all h = absurd (cc)
one_of-IsPresent tables (x ∷ known) name all h = elim (Bool-cases (str_eq x name)) [
  | inl same ↦ rw (← (eq_iff x name).0 same) all.0
  | inr other ↦ one_of-IsPresent tables known name all.1 (rw other at h)
]

references_exist_lem :
    (tables : Tables) (known : List String) (columns : List (String × Column))
    → All (IsPresent tables) known
    → refer_to known columns ≡ true
    → references_exist columns tables ≡ true
unfolding references_exist
references_exist_lem tables known [] all h = refl
references_exist_lem tables known ((name, c) ∷ columns) all h =
    let (one, others) = both (refers_to known c.references) (refer_to known columns) h in
    rw (target c.references one, references_exist_lem tables known columns all others) refl
  where
    target : (r : Option String) → refers_to known r ≡ true → referenced r tables ≡ true
    target none k = refl
    target (some n) k = one_of-IsPresent tables known n all k

-- What the statements lead to: tables that were there stay, the others are as declared.
abbrev pub IsCreated : Tables → Tables → Tables → Type 0
IsCreated declared before after =
    (m : String) → lookup m after ≡ or_else (lookup m before) (lookup m declared)

IsPresent-kept :
    (before after : Tables) (extra : String → Option Table) (m : String)
    → lookup m after ≡ or_else (lookup m before) (extra m)
    → IsPresent before m
    → IsPresent after m
IsPresent-kept before after extra m e h = elim (Option-cases (lookup m before)) [
  | inl gone ↦ let bad : false ≡ true = rw gone at h in absurd (cc)
  | inr (t, there) ↦ rw (e, there) refl
]

abbrev only : String → Table → String → Option Table
only name t m = if str_eq name m then some t else none

-- One CREATE TABLE.
create_lem :
    (name : String) (t : Table) (s : Store)
    → references_exist t.columns s.tables ≡ true
    → (tables : Tables) × (create name t s ≡ some (record s { tables = tables }))
      × ((m : String) → lookup m tables ≡ or_else (lookup m s.tables) (only name t m))
unfolding create
create_lem name t s refs = elim (Option-cases (lookup name s.tables)) [
  | inl fresh ↦ (
    insert name t s.tables,
    rw (fresh, refs) refl,
    λ m. lookup-insert name m t s.tables ∙ added m fresh,
  )
  | inr (old, there) ↦ (s.tables, rw there refl, λ m. unchanged m old there)
]
  where
    added :
        (m : String)
        → lookup name s.tables ≡ none
        → (if str_eq name m then some t else lookup m s.tables)
          ≡ or_else (lookup m s.tables) (only name t m)
    added m fresh = elim (Bool-cases (str_eq name m)) [
      | inl same ↦
          let gone : lookup m s.tables ≡ none = rw (← (eq_iff name m).0 same) fresh in
          rw (same, gone) refl
      | inr other ↦ rw other (or_else-none (lookup m s.tables))
    ]

    unchanged :
        (m : String) (old : Table)
        → lookup name s.tables ≡ some old
        → lookup m s.tables ≡ or_else (lookup m s.tables) (only name t m)
    unchanged m old there = elim (Bool-cases (str_eq name m)) [
      | inl same ↦
          let here : lookup m s.tables ≡ some old = rw (← (eq_iff name m).0 same) there in
          rw here refl
      | inr other ↦ rw other (or_else-none (lookup m s.tables))
    ]

-- Declarations in an order that respects their references are carried out without an error.
pub create_all-Executes :
    (known : List String) (declared : Tables) (s : Store)
    → ordered known declared ≡ true
    → All (IsPresent s.tables) known
    → (tables : Tables) × Executes (create_all declared) s (record s { tables = tables })
      × IsCreated declared s.tables tables
unfolding execute lookup
create_all-Executes known [] s h all = (s.tables, stops s, λ m. or_else-none (lookup m s.tables))
create_all-Executes known ((name, t) ∷ rest) s h all =
    let (refs, later) = both (refer_to known t.columns) (ordered (name ∷ known) rest) h in
    let (tables, made, looks) =
      create_lem name t s (references_exist_lem s.tables known t.columns all refs) in
    let (final, executes, created) =
      create_all-Executes (name ∷ known) rest (record s { tables = tables }) later
        (here tables looks, still known all tables looks) in
    (
      final,
      then_executes (create_table name t) (create_all rest) s (record s { tables = tables })
          (record s { tables = final }) made executes,
      λ m.
          created m
          ∙ ap (λ o. or_else o (lookup m rest)) (looks m)
          ∙ or_else_assoc (lookup m s.tables) (only name t m) (lookup m rest)
          ∙ ap (or_else (lookup m s.tables)) (first (str_eq name m) (lookup m rest)),
    )
  where
    first :
        (b : Bool) (o : Option Table)
        → or_else (if b then some t else none) o ≡ (if b then some t else o)
    first true o = refl
    first false o = refl

    here :
        (tables : Tables)
        → ((m : String) → lookup m tables ≡ or_else (lookup m s.tables) (only name t m))
        → IsPresent tables name
    here tables looks = elim (Option-cases (lookup name s.tables)) [
      | inl fresh ↦ rw (looks name, fresh, (eq_iff name name).1 refl) refl
      | inr (old, there) ↦ rw (looks name, there) refl
    ]

    still :
        (xs : List String)
        → All (IsPresent s.tables) xs
        → (tables : Tables)
        → ((m : String) → lookup m tables ≡ or_else (lookup m s.tables) (only name t m))
        → All (IsPresent tables) xs
    still [] k tables looks = tt
    still (x ∷ xs) k tables looks =
        (IsPresent-kept s.tables tables (only name t) x (looks x) k.0, still xs k.1 tables looks)
