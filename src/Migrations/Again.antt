-- ===== src/Migrations/Again.antt =====
-- A second run of the migrations (master/db.go initDB, at every start of the master).
use game_server_manager.Base.{
  ℕ, ◌≡◌, refl, ap, sym, ◌∙◌, ◌⊎◌, inl, inr, Bool, true, false, Option, none, some, List, [], ◌∷◌,
  String, is_some, lookup, string_key, or_else, All, Option-cases,
}
use game_server_manager.Migrations.{
  Column, Table, Store, create_table, add_column, move_column, drop_column, execute, create, move,
  add_to, drop_from, holds_configs, run_statements,
}
use game_server_manager.Migrations.Statements.{
  creates, adds, moves, drops, create_all, add_all, move_all, drop_all, migrations,
}
use game_server_manager.Migrations.Execution.{
  Executes, stops, then_executes, Executes-append, Executes-runs,
}
use game_server_manager.Migrations.Tables.{Tables, IsPresent}
use game_server_manager.Migrations.Stages.{column_in, created_column, expected_column, IsMigrated}
use game_server_manager.Migrations.Applied.{migrates}

-- On a database where they find what they ask for, the statements do nothing.
module _ (s : Store) where
  creates_again :
      (declared : Tables)
      → All (λ (e : String × Table). IsPresent s.tables e.0) declared
      → Executes (create_all declared) s s
  unfolding execute create
  creates_again [] h = stops s
  creates_again ((name, t) ∷ rest) h =
      then_executes (create_table name t) (create_all rest) s s s (rw h.0 refl)
        (creates_again rest h.1)

  adds_again :
      (t : Table) (added : List (String × Column))
      → lookup "game_definitions" s.tables ≡ some t
      → All (λ (e : String × Column). is_some (lookup e.0 t.columns) ≡ true) added
      → Executes (add_all added) s s
  unfolding execute
  adds_again t [] there h = stops s
  adds_again t ((name, c) ∷ rest) there h =
      then_executes (add_column "game_definitions" name c) (add_all rest) s s s
        (ap (add_to "game_definitions" name c s) there ∙ rw h.0 refl) (adds_again t rest there h.1)

  moves_again :
      (t : Table) (moved : List (String × String))
      → lookup "game_servers" s.tables ≡ some t
      → All (λ (e : String × String). lookup e.0 t.columns ≡ none) moved
      → Executes (move_all moved) s s
  unfolding execute move
  moves_again t [] there h = stops s
  moves_again t ((column, key) ∷ rest) there h =
      then_executes (move_column column key) (move_all rest) s s s (rw (there, h.0) refl)
        (moves_again t rest there h.1)

  drops_again :
      (t : Table) (dropped : List String)
      → lookup "game_servers" s.tables ≡ some t
      → All (λ (column : String). lookup column t.columns ≡ none) dropped
      → Executes (drop_all dropped) s s
  unfolding execute
  drops_again t [] there h = stops s
  drops_again t (column ∷ rest) there h =
      then_executes (drop_column "game_servers" column) (drop_all rest) s s s
        (ap (drop_from "game_servers" column s) there ∙ rw h.0 refl) (drops_again t rest there h.1)

present_table :
    (tables : Tables) (name : String)
    → IsPresent tables name
    → (t : Table) × (lookup name tables ≡ some t)
present_table tables name h = elim (Option-cases (lookup name tables)) [
  | inl gone ↦ let bad : false ≡ true = rw gone at h in absurd (cc)
  | inr found ↦ found
]

filled : (o : Option Column) (c : Column) → is_some (or_else o (some c)) ≡ true
filled none c = refl
filled (some x) c = refl

-- Every column that is looked for is where the migrations left it.
again : (s t : Store) → IsMigrated s t → Executes migrations t t
unfolding lookup
again s t m =
    let (d, defined) = present_table t.tables "game_definitions" m.tables.1.1.0 in
    let (g, served) = present_table t.tables "game_servers" m.tables.1.1.1.1.1.0 in
    let gone : (column : String)
        → expected_column "game_servers" column s.tables ≡ none
        → lookup column g.columns ≡ none =
      λ column h. ap (column_in column) (sym served) ∙ m.columns "game_servers" column ∙ h in
    let held : (name : String) (c : Column)
        → lookup name adds ≡ some c
        → is_some (lookup name d.columns) ≡ true =
      λ name c h.
        ap is_some (
          ap (column_in name) (sym defined)
          ∙ m.columns "game_definitions" name
          ∙ ap (or_else (created_column "game_definitions" name s.tables)) h)
        ∙ filled (created_column "game_definitions" name s.tables) c in
    let absent : All (λ (column : String). lookup column g.columns ≡ none) drops =
      (gone "start_map" refl, (gone "map_group" refl, (gone "extra_args" refl, tt))) in
    Executes-append (create_all creates) _ t t t (creates_again t creates m.tables) (
      Executes-append (add_all adds) _ t t t
        (adds_again t d adds defined (
          held "default_env" _ refl,
          (
            held "data_path" _ refl,
            (held "field_mappings" _ refl, (held "custom_fields" _ refl, tt)),
          ),
        ))
        (Executes-append (move_all moves) (drop_all drops) t t t
          (moves_again t g moves served absent) (drops_again t g drops served absent)))

module _ (fault : ℕ → Bool) (none_fail : (i : ℕ) → fault i ≡ false) where
  -- The migrations change nothing in a database on which they have run through before, and run
  -- through again.
  pub run_statements_again :
      (s : Store)
      → (lookup "server_configs" s.tables ≡ none) ⊎ (holds_configs s.tables ≡ true)
      → let first = run_statements fault 0 migrations s in
        run_statements fault 0 migrations first.0 ≡ (first.0, true)
  run_statements_again s fits =
      let (t, executes, migrated) = migrates s fits in
      let ran = Executes-runs fault 0 migrations s t none_fail executes in
      ap (λ r. run_statements fault 0 migrations r.0) ran
      ∙ Executes-runs fault 0 migrations t t none_fail (again s t migrated)
      ∙ ap (λ r. (r.0, true)) (sym ran)
