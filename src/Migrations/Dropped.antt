-- ===== src/Migrations/Dropped.antt =====
-- The columns that ALTER TABLE statements of master/db.go runMigrations drop.
use game_server_manager.Base.{
  ◌≡◌, refl, ap, ◌∙◌, inl, inr, Bool, false, none, some, List, [], ◌∷◌, String, arith,
  if◌then◌else◌, str_eq, eq_iff, lookup, insert, delete, lookup-delete, string_key, ◌||◌,
  Bool-cases, Option-cases,
}
use game_server_manager.Base.Int.{ℤ}
use game_server_manager.Migrations.{Table, Store, drop_column, execute, drop_from, drop_values}
use game_server_manager.Migrations.Statements.{drop_all}
use game_server_manager.Migrations.Execution.{Executes, stops, then_executes}
use game_server_manager.Migrations.Tables.{Tables}
use game_server_manager.Migrations.Columns.{Columns, Altered, insert_other, insert_same}

abbrev pub listed : String → List String → Bool
listed name [] = false
listed name (x ∷ xs) = str_eq x name || listed name xs

-- One DROP COLUMN.
drop_from-Altered :
    (table name : String) (s : Store) (t : Table)
    → lookup table s.tables ≡ some t
    → (tables : Tables) × (legacy : List (String × List (ℤ × String))) × (drop_from table name s
          (some t)
        ≡ some (record s { tables = tables; legacy = legacy }))
      × Altered table (λ m. if str_eq name m then none else lookup m t.columns) s.tables tables
drop_from-Altered table name s t there = elim (Option-cases (lookup name t.columns)) [
  | inl gone ↦ (
    s.tables,
    s.legacy,
    rw gone refl,
    record {
      columns = t.columns;
      unique = t.unique;
      there = there;
      looks = λ m. absent m gone;
      others = λ m other. refl;
    },
  )
  | inr (old, known) ↦ (
    insert table (record t { columns = delete name t.columns }) s.tables,
    drop_values table name s.legacy,
    rw known refl,
    record {
      columns = delete name t.columns;
      unique = t.unique;
      there = insert_same table (record t { columns = delete name t.columns }) s.tables;
      looks = λ m. lookup-delete name m t.columns;
      others = λ m. insert_other table m (record t { columns = delete name t.columns }) s.tables;
    },
  )
]
  where
    absent :
        (m : String)
        → lookup name t.columns ≡ none
        → lookup m t.columns ≡ (if str_eq name m then none else lookup m t.columns)
    absent m gone = elim (Bool-cases (str_eq name m)) [
      | inl same ↦
          let none_here : lookup m t.columns ≡ none = rw (← (eq_iff name m).0 same) gone in
          rw same none_here
      | inr other ↦ rw other refl
    ]

-- All the columns that game_servers loses.
pub drop_all-Executes :
    (dropped : List String) (s : Store) (t : Table)
    → lookup "game_servers" s.tables ≡ some t
    → (tables : Tables) × (legacy : List (String × List (ℤ × String))) × Executes
        (drop_all dropped)
        s
        (record s { tables = tables; legacy = legacy })
      × Altered "game_servers"
          (λ m. if listed m dropped then none else lookup m t.columns)
          s.tables
          tables
unfolding execute
drop_all-Executes [] s t there = (
  s.tables,
  s.legacy,
  stops s,
  record {
    columns = t.columns;
    unique = t.unique;
    there = there;
    looks = λ m. refl;
    others = λ m other. refl;
  },
)
drop_all-Executes (name ∷ dropped) s t there =
    let (tables, legacy, made, first) = drop_from-Altered "game_servers" name s t there in
    let (final, left, executes, rest) =
      drop_all-Executes dropped (record s { tables = tables; legacy = legacy })
        (record { columns = first.columns; unique = first.unique }) first.there in
    (
      final,
      left,
      then_executes (drop_column "game_servers" name) (drop_all dropped) s
          (record s { tables = tables; legacy = legacy })
          (record s { tables = final; legacy = left })
          (ap (drop_from "game_servers" name s) there ∙ made) executes,
      record {
        columns = rest.columns;
        unique = rest.unique;
        there = rest.there;
        looks = λ m. rest.looks m ∙ both_tests m (first.columns) (first.looks m);
        others = λ m other. rest.others m other ∙ first.others m other;
      },
    )
  where
    both_tests :
        (m : String) (columns : Columns)
        → lookup m columns ≡ (if str_eq name m then none else lookup m t.columns)
        → (if listed m dropped then none else lookup m columns)
          ≡ (if str_eq name m || listed m dropped then none else lookup m t.columns)
    both_tests m columns e = ground (arith, e)
