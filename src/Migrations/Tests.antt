-- ===== src/Migrations/Tests.antt =====
-- Concrete databases under the migrations.
use game_server_manager.Base.{
  ℕ, suc, ltb, if◌then◌else◌, ◌*◌, ◌<◌, ◌≡◌, ◌≢◌, refl, ◌⊎◌, inl, false, true, none, some, Option,
  [], ◌∷◌, String, lookup, insert, delete, string_key,
}
use game_server_manager.Base.Int.{pos, int_key}
use game_server_manager.Servers.{find_config}
use game_server_manager.Games.{GameFaults, seed_games}
use game_server_manager.Db.Schema.{game_servers_table}
use game_server_manager.Migrations.{
  Table, Store, run_statements, execute, create, references_exist, move, move_values,
}
use game_server_manager.Migrations.Statements.{
  migrations, run_migrations, agents_table, game_definitions_table, game_modes_table,
}
use game_server_manager.Migrations.Applied.{run_migrations-IsMigrated}
use game_server_manager.Migrations.Stages.{IsMigrated}
use game_server_manager.Migrations.Again.{run_statements_again}
use game_server_manager.Migrations.Connect.{unreachable, migrated, init_db, init_db_ends}
use game_server_manager.Samples.{sample_db, no_faults}

-- A database of an older version, in which the server of the samples has a map group and a start map.
abbrev old_servers : Table
old_servers = record game_servers_table {
  columns =
      ("start_map", record { declared = "VARCHAR(64)"; references = none; cascades = false })
      ∷ ("map_group", record { declared = "VARCHAR(64)"; references = none; cascades = false })
      ∷ game_servers_table.columns;
}

abbrev old_store : Store
old_store = record {
  tables =
      ("agents", agents_table)
      ∷ ("game_definitions", game_definitions_table)
      ∷ ("game_modes", game_modes_table)
      ∷ ("game_servers", old_servers)
      ∷ [];
  legacy =
      ("start_map", (pos 1, "de_inferno") ∷ []) ∷ ("map_group", (pos 1, "mg_active") ∷ []) ∷ [];
  db = sample_db;
}

abbrev after_migrations : Store
after_migrations = (run_statements no_faults 0 migrations old_store).0

-- The map group becomes a config; the start map does not, since the server has that config already.
old_values :
    (find_config (pos 1) "CS2_MAPGROUP" after_migrations.db
      ≡ some (record { game_server_id = pos 1; key = "CS2_MAPGROUP"; value = "mg_active" }))
    × (find_config (pos 1) "CS2_STARTMAP" after_migrations.db
        ≡ some (record { game_server_id = pos 1; key = "CS2_STARTMAP"; value = "de_nuke" }))
    × (lookup "map_group" after_migrations.legacy ≡ none)
unfolding run_statements execute create references_exist move move_values lookup insert delete
old_values = (refl, refl, refl)

abbrev no_game_faults : ℕ → GameFaults
no_game_faults i = record {
  upsert = false;
  delete = false;
  mapping = λ j. false;
  mode = λ j. false;
}

run_migrations-IsMigrated_example :
    (t : Store) × (run_migrations no_faults no_game_faults [] old_store
      ≡ (record t { db = seed_games no_game_faults 0 [] t.db }, true))
    × IsMigrated old_store t
unfolding lookup
run_migrations-IsMigrated_example =
    run_migrations-IsMigrated no_faults (λ i. refl) no_game_faults [] old_store (inl refl)

run_statements_again_example :
    run_statements no_faults 0 migrations after_migrations ≡ (after_migrations, true)
unfolding lookup
run_statements_again_example = run_statements_again no_faults (λ i. refl) old_store (inl refl)

-- The database comes up while the loop sleeps for the second time.
abbrev up_at_third : ℕ → Option String
up_at_third i = if ltb i 2 then some "connection refused" else none

init_db_ends_example :
    ((n : ℕ) × (n < 10)
      × ((j : ℕ) → j < n → up_at_third j ≢ none)
      × (up_at_third n ≡ none)
      × (init_db no_faults no_game_faults [] old_store "" (λ url. none) up_at_third ≡ (
        record { pings = suc n; slept = 2 * n; error = none },
        migrated (run_migrations no_faults no_game_faults [] old_store),
      )))
    ⊎ (((j : ℕ) → j < 10 → up_at_third j ≢ none)
        × ((e : String) × (up_at_third 9 ≡ some e)
            × (init_db no_faults no_game_faults [] old_store "" (λ url. none) up_at_third
                ≡ (record { pings = 10; slept = 20; error = some e }, unreachable e))))
init_db_ends_example =
    init_db_ends no_faults no_game_faults [] old_store "" (λ url. none) up_at_third refl
