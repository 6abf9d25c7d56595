-- ===== src/Migrations/Applied.antt =====
-- The whole of runMigrations (master/db.go) on databases of any age.
use game_server_manager.Base.{
  ℕ, ◌≡◌, refl, ap, ◌∙◌, ◌⊎◌, Bool, true, false, none, List, [], lookup, or_else, string_key,
}
use game_server_manager.Base.Int.{int_key}
use game_server_manager.Servers.{find_config}
use game_server_manager.Games.{GameDefinition, GameFaults, seed_games}
use game_server_manager.Migrations.{Store, holds_configs, seed_store}
use game_server_manager.Migrations.Statements.{
  creates, adds, moves, drops, create_all, add_all, move_all, drop_all, migrations, run_migrations,
}
use game_server_manager.Migrations.Execution.{Executes, Executes-append, Executes-runs}
use game_server_manager.Migrations.Tables.{create_all-Executes}
use game_server_manager.Migrations.Columns.{add_all-Executes}
use game_server_manager.Migrations.Dropped.{drop_all-Executes}
use game_server_manager.Migrations.Moved.{move_all-Executes}
use game_server_manager.Migrations.Stages.{
  IsMigrated, created_table, legacy_config-tables, holds_added, served_added, legacy_added,
  columns_lem, tables_lem,
}

pub migrates :
    (s : Store)
    → (lookup "server_configs" s.tables ≡ none) ⊎ (holds_configs s.tables ≡ true)
    → (t : Store) × Executes migrations s t × IsMigrated s t
unfolding lookup
migrates s fits =
    let (made, creating, created) = create_all-Executes [] creates s refl tt in
    let (definitions, defined) = created_table "game_definitions" _ s.tables made created refl in
    let (servers, served) = created_table "game_servers" _ s.tables made created refl in
    let (added, adding, altered) =
      add_all-Executes adds (record s { tables = made }) definitions defined in
    let (db, moving, same, found) =
      move_all-Executes moves (record s { tables = added })
        (holds_added s made added made definitions servers created defined altered served fits)
        (refl, (refl, (refl, tt))) in
    let (final, left, dropping, dropped) =
      drop_all-Executes drops (record s { tables = added; db = db }) servers
        (served_added s made added made definitions servers created defined altered served) in
    let old = legacy_added s made added made definitions servers created defined altered served in
    (
      record s { tables = final; legacy = left; db = db },
      Executes-append (create_all creates) _ s (record s { tables = made }) _ creating
          (Executes-append (add_all adds) _ (record s { tables = made })
            (record s { tables = added }) _ adding
            (Executes-append (move_all moves) (drop_all drops) (record s { tables = added })
              (record s { tables = added; db = db }) _ moving dropping)),
      record {
        tables =
            tables_lem s made added final definitions servers created defined altered served
              dropped;
        columns =
            columns_lem s made added final definitions servers created defined altered served
              dropped;
        configs = λ id key.
            found id key
            ∙ ap (or_else (find_config id key s.db)) (
                legacy_config-tables moves s added id key
                  (old "start_map" refl, (old "map_group" refl, (old "extra_args" refl, tt))));
        rows = same;
      },
    )

module _ (fault : ℕ → Bool) (none_fail : (i : ℕ) → fault i ≡ false) (faults : ℕ → GameFaults)
    (games : List GameDefinition) (s : Store)
    (fits : (lookup "server_configs" s.tables ≡ none) ⊎ (holds_configs s.tables ≡ true)) where
  -- Whatever tables a database has, if its table of configs can hold them or is not there yet, and no
  -- statement fails from outside: the migrations run through, the database is migrated, and seeding
  -- the registered games is what is left.
  pub run_migrations-IsMigrated :
      (t : Store) × (run_migrations fault faults games s
        ≡ (record t { db = seed_games faults 0 games t.db }, true))
      × IsMigrated s t
  unfolding run_migrations
  run_migrations-IsMigrated =
      let (t, executes, migrated) = migrates s fits in
      (
        t,
        ap (seed_store faults games) (Executes-runs fault 0 migrations s t none_fail executes),
        migrated,
      )
