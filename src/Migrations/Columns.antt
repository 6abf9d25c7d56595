-- ===== src/Migrations/Columns.antt =====
-- The columns that ALTER TABLE statements of master/db.go runMigrations add.
use game_server_manager.Base.{
  ◌≡◌, refl, ap, ◌∙◌, inl, inr, Bool, true, false, Option, none, some, List, [], ◌∷◌, String,
  if◌then◌else◌, str_eq, eq_iff, lookup, insert, lookup-insert, or_else, or_else-none,
  or_else_assoc, string_key, Bool-cases, Option-cases,
}
use game_server_manager.Migrations.{Column, Table, Store, add_column, execute, add_to}
use game_server_manager.Migrations.Statements.{add_all}
use game_server_manager.Migrations.Execution.{Executes, stops, then_executes}
use game_server_manager.Migrations.Tables.{Tables}

abbrev pub Columns : Type 0
Columns = List (String × Column)

-- One table has changed columns; the others are as before.
pub record Altered (table : String) (wanted : String → Option Column) (before after : Tables)
    : Type 0 where
  pub columns : Columns
  pub unique : List (List String)
  pub there : lookup table after ≡ some (record { columns = columns; unique = unique })
  pub looks : (name : String) → lookup name columns ≡ wanted name
  pub others : (m : String) → str_eq table m ≡ false → lookup m after ≡ lookup m before

pub insert_other :
    (table m : String) (t : Table) (tables : Tables)
    → str_eq table m ≡ false
    → lookup m (insert table t tables) ≡ lookup m tables
insert_other table m t tables other = lookup-insert table m t tables ∙ rw other refl

pub insert_same :
    (table : String) (t : Table) (tables : Tables) → lookup table (insert table t tables) ≡ some t
insert_same table t tables =
    lookup-insert table table t tables ∙ rw ((eq_iff table table).1 refl) refl

-- One ADD COLUMN.
add_to-Altered :
    (table name : String) (c : Column) (s : Store) (t : Table)
    → lookup table s.tables ≡ some t
    → (tables : Tables) × (add_to table name c s (some t) ≡ some (record s { tables = tables }))
      × Altered table
          (λ m. or_else (lookup m t.columns) (if str_eq name m then some c else none))
          s.tables
          tables
add_to-Altered table name c s t there = elim (Option-cases (lookup name t.columns)) [
  | inl fresh ↦ (
    insert table (record t { columns = insert name c t.columns }) s.tables,
    rw fresh refl,
    record {
      columns = insert name c t.columns;
      unique = t.unique;
      there = insert_same table (record t { columns = insert name c t.columns }) s.tables;
      looks = λ m. lookup-insert name m c t.columns ∙ added m fresh;
      others = λ m. insert_other table m (record t { columns = insert name c t.columns }) s.tables;
    },
  )
  | inr (old, known) ↦ (
    s.tables,
    rw known refl,
    record {
      columns = t.columns;
      unique = t.unique;
      there = there;
      looks = λ m. unchanged m old known;
      others = λ m other. refl;
    },
  )
]
  where
    added :
        (m : String)
        → lookup name t.columns ≡ none
        → (if str_eq name m then some c else lookup m t.columns)
          ≡ or_else (lookup m t.columns) (if str_eq name m then some c else none)
    added m fresh = elim (Bool-cases (str_eq name m)) [
      | inl same ↦
          let gone : lookup m t.columns ≡ none = rw (← (eq_iff name m).0 same) fresh in
          rw (same, gone) refl
      | inr other ↦ rw other (or_else-none (lookup m t.columns))
    ]

    unchanged :
        (m : String) (old : Column)
        → lookup name t.columns ≡ some old
        → lookup m t.columns ≡ or_else (lookup m t.columns) (if str_eq name m then some c else none)
    unchanged m old known = elim (Bool-cases (str_eq name m)) [
      | inl same ↦
          let here : lookup m t.columns ≡ some old = rw (← (eq_iff name m).0 same) known in
          rw here refl
      | inr other ↦ rw other (or_else-none (lookup m t.columns))
    ]

-- All the columns that game_definitions gets.
pub add_all-Executes :
    (added : Columns) (s : Store) (t : Table)
    → lookup "game_definitions" s.tables ≡ some t
    → (tables : Tables) × Executes (add_all added) s (record s { tables = tables })
      × Altered "game_definitions"
          (λ m. or_else (lookup m t.columns) (lookup m added))
          s.tables
          tables
unfolding execute lookup
add_all-Executes [] s t there = (
  s.tables,
  stops s,
  record {
    columns = t.columns;
    unique = t.unique;
    there = there;
    looks = λ m. or_else-none (lookup m t.columns);
    others = λ m other. refl;
  },
)
add_all-Executes ((name, c) ∷ added) s t there =
    let (tables, made, first) = add_to-Altered "game_definitions" name c s t there in
    let (final, executes, rest) =
      add_all-Executes added (record s { tables = tables })
        (record { columns = first.columns; unique = first.unique }) first.there in
    (
      final,
      then_executes (add_column "game_definitions" name c) (add_all added) s
          (record s { tables = tables }) (record s { tables = final })
          (ap (add_to "game_definitions" name c s) there ∙ made) executes,
      record {
        columns = rest.columns;
        unique = rest.unique;
        there = rest.there;
        looks = λ m.
            rest.looks m
            ∙ ap (λ o. or_else o (lookup m added)) (first.looks m)
            ∙ or_else_assoc (lookup m t.columns) (if str_eq name m then some c else none)
                (lookup m added)
            ∙ ap (or_else (lookup m t.columns)) (chosen (str_eq name m) (lookup m added));
        others = λ m other. rest.others m other ∙ first.others m other;
      },
    )
  where
    chosen :
        (b : Bool) (o : Option Column)
        → or_else (if b then some c else none) o ≡ (if b then some c else o)
    chosen true o = refl
    chosen false o = refl
