-- ===== src/Migrations/Stages.antt =====
-- The columns before and after the stages of runMigrations (master/db.go).
use game_server_manager.Base.{
  ◌≡◌, refl, ap, ap₂, sym, ◌∙◌, ◌⊎◌, inl, inr, Bool, true, false, ◌&&◌, Option, none, some, List,
  [], ◌∷◌, String, if◌then◌else◌, str_eq, lookup, or_else, string_key, eq_iff, All, All-implies,
  Bool-cases, Option-cases,
}
use game_server_manager.Base.Int.{ℤ, int_key}
use game_server_manager.Servers.{find_config}
use game_server_manager.Migrations.{
  Column, Table, Store, has_column, in_columns, column_values, selected, holds_configs,
}
use game_server_manager.Migrations.Statements.{creates, adds, moves, drops}
use game_server_manager.Migrations.Tables.{Tables, IsPresent, IsCreated}
use game_server_manager.Migrations.Columns.{Altered}
use game_server_manager.Migrations.Dropped.{listed}
use game_server_manager.Migrations.Legacy.{given, has_row}
use game_server_manager.Migrations.Moved.{legacy_config, SameRows}

abbrev pub column_in : String → Option Table → Option Column
column_in name none = none
column_in name (some t) = lookup name t.columns

abbrev pub column_of : (table name : String) → Tables → Option Column
column_of table name tables = column_in name (lookup table tables)

-- The columns that a table has when it is there already, or else those of its declaration.
abbrev pub created_column : (table name : String) → Tables → Option Column
created_column table name tables =
    column_in name (or_else (lookup table tables) (lookup table creates))

-- The columns after the migrations.
abbrev pub expected_column : (table name : String) → Tables → Option Column
expected_column table name tables =
    if str_eq "game_servers" table
    then (if listed name drops then none else created_column table name tables)
    else if str_eq "game_definitions" table
    then or_else (created_column table name tables) (lookup name adds)
    else created_column table name tables

-- The database has all tables of the program, with the columns that a table had or was made with,
-- the columns that were added, and without those that became configs; each config is as before or what the
-- removed columns of its server leave; nothing else changed.
pub record IsMigrated (s t : Store) : Type 0 where
  pub tables : All (λ (e : String × Table). IsPresent t.tables e.0) creates
  pub columns :
      (table name : String) → column_of table name t.tables ≡ expected_column table name s.tables
  pub configs :
      (id : ℤ) (key : String)
      → find_config id key t.db ≡ or_else (find_config id key s.db) (legacy_config moves id key s)
  pub rows : SameRows s.db t.db

pub created_table :
    (name : String) (d : Table) (before after : Tables)
    → IsCreated creates before after
    → lookup name creates ≡ some d
    → (t : Table) × (lookup name after ≡ some t)
created_table name d before after made declared = elim (Option-cases (lookup name before)) [
  | inl fresh ↦ (d, rw (made name, fresh) declared)
  | inr (t, there) ↦ (t, rw (made name, there) refl)
]

altered_lem :
    (table : String) (wanted : String → Option Column) (before after : Tables)
    → Altered table wanted before after
    → (m name : String)
    → column_of m name after ≡ (if str_eq table m then wanted name else column_of m name before)
altered_lem table wanted before after a m name = elim (Bool-cases (str_eq table m)) [
  | inl same ↦ rw same (
      ap (λ x. column_of x name after) (sym ((eq_iff table m).0 same))
      ∙ ap (column_in name) a.there
      ∙ a.looks name)
  | inr other ↦ rw other (ap (column_in name) (a.others m other))
]

Altered-IsPresent :
    (table : String) (wanted : String → Option Column) (before after : Tables)
    → Altered table wanted before after
    → (m : String) → IsPresent before m
    → IsPresent after m
Altered-IsPresent table wanted before after a m h = elim (Bool-cases (str_eq table m)) [
  | inl same ↦ rw (← (eq_iff table m).0 same, a.there) refl
  | inr other ↦ rw (a.others m other) h
]

IsCreated-IsPresent :
    (declared before after : Tables) (m : String)
    → IsCreated declared before after
    → IsPresent declared m
    → IsPresent after m
IsCreated-IsPresent declared before after m made h = elim (Option-cases (lookup m before)) [
  | inl fresh ↦ rw (made m, fresh) h
  | inr (t, there) ↦ rw (made m, there) refl
]

pub legacy_config-tables :
    (moved : List (String × String)) (s : Store) (tables : Tables) (id : ℤ) (key : String)
    → All
        (λ (m : String × String).
          has_column "game_servers" m.0 tables ≡ has_column "game_servers" m.0 s.tables)
        moved
    → legacy_config moved id key (record s { tables = tables }) ≡ legacy_config moved id key s
legacy_config-tables [] s tables id key same = refl
legacy_config-tables ((column, k) ∷ moved) s tables id key same =
    ap₂ or_else
      (ap
        (λ b.
          given (b && (has_row id s.db.game_servers && str_eq k key)) id key
            (selected (lookup id (column_values (lookup column s.legacy)))))
        same.0)
      (legacy_config-tables moved s tables id key same.1)

abbrev holds_in : Option Table → Bool
holds_in o = in_columns "game_server_id" o && in_columns "key" o && in_columns "value" o

-- The three stages, one after the other.
module _ (s : Store) (made added final : Tables) (definitions servers : Table)
    (created : IsCreated creates s.tables made)
    (defined : lookup "game_definitions" made ≡ some definitions)
    (altered : Altered "game_definitions"
      (λ m. or_else (lookup m definitions.columns) (lookup m adds))
      made
      added)
    (served : lookup "game_servers" made ≡ some servers) where
  pub holds_added :
      (lookup "server_configs" s.tables ≡ none) ⊎ (holds_configs s.tables ≡ true)
      → holds_configs added ≡ true
  unfolding lookup
  holds_added fits =
      ap holds_in (altered.others "server_configs" refl ∙ created "server_configs")
      ∙ stored fits (Option-cases (lookup "server_configs" s.tables))
    where
      stored :
          (lookup "server_configs" s.tables ≡ none) ⊎ (holds_configs s.tables ≡ true)
          → (lookup "server_configs" s.tables ≡ none)
            ⊎ ((t : Table) × (lookup "server_configs" s.tables ≡ some t))
          → holds_in (or_else (lookup "server_configs" s.tables) (lookup "server_configs" creates))
            ≡ true
      stored _ (inl fresh) = rw fresh refl
      stored (inl fresh) (inr (t, there)) = rw fresh refl
      stored (inr h) (inr (t, there)) = rw there (rw there at h)

  pub served_added : lookup "game_servers" added ≡ some servers
  unfolding lookup
  served_added = altered.others "game_servers" refl ∙ served

  pub legacy_added :
      (column : String)
      → in_columns column (lookup "game_servers" creates) ≡ false
      → has_column "game_servers" column added ≡ has_column "game_servers" column s.tables
  unfolding lookup
  legacy_added column new =
      ap (in_columns column) (altered.others "game_servers" refl ∙ created "game_servers")
      ∙ elim (Option-cases (lookup "game_servers" s.tables)) [
        | inl fresh ↦ rw fresh new
        | inr (t, there) ↦ rw there refl
      ]

  module _
      (dropped : Altered "game_servers"
        (λ m. if listed m drops then none else lookup m servers.columns)
        added
        final) where
    pub columns_lem : (m name : String) → column_of m name final ≡ expected_column m name s.tables
    columns_lem m name =
        altered_lem "game_servers" _ added final dropped m name
        ∙ by_table (Bool-cases (str_eq "game_servers" m)) (Bool-cases (str_eq "game_definitions" m))
      where
        by_table :
            (str_eq "game_servers" m ≡ true) ⊎ (str_eq "game_servers" m ≡ false)
            → (str_eq "game_definitions" m ≡ true) ⊎ (str_eq "game_definitions" m ≡ false)
            → (if str_eq "game_servers" m
                then (if listed name drops then none else lookup name servers.columns)
                else column_of m name added)
              ≡ expected_column m name s.tables
        by_table (inl e) _ = rw e (
            ap (λ (o : Option Column). if listed name drops then none else o)
              (ap (column_in name) (sym served)
                ∙ ap (λ x. column_of x name made) ((eq_iff "game_servers" m).0 e)
                ∙ ap (column_in name) (created m)))
        by_table (inr e) (inl f) =
            rw (e, f)
              (altered_lem "game_definitions" _ made added altered m name
                ∙ rw f (
                    ap (λ o. or_else o (lookup name adds))
                      (ap (column_in name) (sym defined)
                        ∙ ap (λ x. column_of x name made) ((eq_iff "game_definitions" m).0 f)
                        ∙ ap (column_in name) (created m))))
        by_table (inr e) (inr f) =
            rw (e, f)
              (altered_lem "game_definitions" _ made added altered m name
                ∙ rw f (ap (column_in name) (created m)))

    pub tables_lem : All (λ (e : String × Table). IsPresent final e.0) creates
    unfolding lookup
    tables_lem =
        All-implies (λ (e : String × Table). IsPresent creates e.0)
          (λ (e : String × Table). IsPresent final e.0) creates
          (λ e h. Altered-IsPresent "game_servers" _ added final dropped e.0 (
            Altered-IsPresent "game_definitions" _ made added altered e.0
              (IsCreated-IsPresent creates s.tables made e.0 created h)))
          (refl, (refl, (refl, (refl, (refl, (refl, (refl, (refl, (refl, (refl, tt))))))))))
