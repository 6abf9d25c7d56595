-- ===== src/Migrations/Moved.antt =====
-- All the DO blocks of master/db.go runMigrations: what older databases leave as configs.
use game_server_manager.Base.{
  ◌≡◌, refl, ap, ap₂, ◌∙◌, inl, inr, true, not, ◌&&◌, ◌||◌, Option, none, some, List, [], ◌∷◌,
  String, str_eq, is_some, lookup, or_else, or_else-none, or_else_assoc, string_key, All,
  Bool-cases,
}
use game_server_manager.Base.Int.{ℤ, int_key}
use game_server_manager.Db.{Db, ServerRow, ConfigRow, varchar}
use game_server_manager.Servers.{find_config}
use game_server_manager.Migrations.{
  Store, move_column, execute, move, move_values, has_column, holds_configs, column_values,
  selected, insert_selected,
}
use game_server_manager.Migrations.Statements.{move_all}
use game_server_manager.Migrations.Legacy.{given, has_row, move_values-find}
use game_server_manager.Migrations.Execution.{Executes, stops, then_executes}

-- Only the configs differ.
abbrev pub SameRows : Db → Db → Type 0
SameRows db after = after ≡ record db { server_configs = after.server_configs }

pub insert_selected-SameRows :
    (id : ℤ) (k : String) (value : Option String) (db : Db)
    → SameRows db (insert_selected id k value db)
insert_selected-SameRows id k none db = refl
insert_selected-SameRows id k (some v) db =
    elim (Bool-cases (is_some (find_config id k db) || not (varchar 128 k))) [
      | inl e ↦ rw e refl
      | inr e ↦ rw e refl
    ]

SameRows-trans : (a b c : Db) → SameRows a b → SameRows b c → SameRows a c
SameRows-trans a b c h k = k ∙ ap (λ (x : Db). record x { server_configs = c.server_configs }) h

move_values-SameRows :
    (values : List (ℤ × String)) (k : String) (servers : List ServerRow) (db : Db)
    → SameRows db (move_values values k servers db)
unfolding move_values
move_values-SameRows values k [] db = refl
move_values-SameRows values k (s ∷ servers) db =
    let next = insert_selected s.id k (selected (lookup s.id values)) db in
    SameRows-trans db next (move_values values k servers next)
      (insert_selected-SameRows s.id k (selected (lookup s.id values)) db)
      (move_values-SameRows values k servers next)

-- What one column of game_servers leaves as a config of a server under a key.
abbrev pub column_config : (column k : String) → ℤ → String → Store → Option ConfigRow
column_config column k id key s =
    given
      (has_column "game_servers" column s.tables && (has_row id s.db.game_servers && str_eq k key))
      id key (selected (lookup id (column_values (lookup column s.legacy))))

-- What the columns of an older database leave, the first of them that has a text.
abbrev pub legacy_config : List (String × String) → ℤ → String → Store → Option ConfigRow
legacy_config [] id key s = none
legacy_config ((column, k) ∷ rest) id key s =
    or_else (column_config column k id key s) (legacy_config rest id key s)

module _ (s : Store) (holds : holds_configs s.tables ≡ true) where
  move_lem :
      (column k : String)
      → varchar 128 k ≡ true
      → (db : Db) × (move column k s ≡ some (record s { db = db }))
        × SameRows s.db db
        × ((id : ℤ) (key : String)
            → find_config id key db
              ≡ or_else (find_config id key s.db) (column_config column k id key s))
  unfolding move
  move_lem column k short = elim (Bool-cases (has_column "game_servers" column s.tables)) [
    | inl old ↦
        let values = column_values (lookup column s.legacy) in
        (
          move_values values k s.db.game_servers s.db,
          rw (old, holds) refl,
          move_values-SameRows values k s.db.game_servers s.db,
          λ id key. rw old (move_values-find values k s.db.game_servers s.db id key short),
        )
    | inr new ↦ (s.db, rw new refl, refl, λ id key. rw new (or_else-none (find_config id key s.db)))
  ]

-- The blocks run through. A server's config stays if it has one, and is otherwise what the columns
-- leave.
pub move_all-Executes :
    (moved : List (String × String)) (s : Store)
    → holds_configs s.tables ≡ true
    → All (λ m. varchar 128 m.1 ≡ true) moved
    → (db : Db) × Executes (move_all moved) s (record s { db = db })
      × SameRows s.db db
      × ((id : ℤ) (key : String)
          → find_config id key db
            ≡ or_else (find_config id key s.db) (legacy_config moved id key s))
unfolding execute
move_all-Executes [] s holds short =
    (s.db, stops s, refl, λ id key. or_else-none (find_config id key s.db))
move_all-Executes ((column, k) ∷ moved) s holds short =
    let (db, made, same, found) = move_lem s holds column k short.0 in
    let (final, executes, same_too, found_too) =
      move_all-Executes moved (record s { db = db }) holds short.1 in
    let servers : db.game_servers ≡ s.db.game_servers = ap (λ x. x.game_servers) same in
    (
      final,
      then_executes (move_column column k) (move_all moved) s (record s { db = db })
          (record s { db = final }) made executes,
      SameRows-trans s.db db final same same_too,
      λ id key.
          found_too id key
          ∙ ap (λ o. or_else o (legacy_config moved id key (record s { db = db }))) (found id key)
          ∙ or_else_assoc (find_config id key s.db) (column_config column k id key s)
              (legacy_config moved id key (record s { db = db }))
          ∙ ap
              (λ o. or_else (find_config id key s.db) (or_else (column_config column k id key s) o))
              (legacy_config-same moved id key (record s { db = db }) servers),
    )
  where
    legacy_config-same :
        (moved : List (String × String)) (id : ℤ) (key : String) (t : Store)
        → t.db.game_servers ≡ s.db.game_servers
        → legacy_config moved id key (record s { db = t.db }) ≡ legacy_config moved id key s
    legacy_config-same [] id key t same = refl
    legacy_config-same ((c, j) ∷ rest) id key t same =
        ap₂ or_else
          (ap
            (λ servers.
              given (has_column "game_servers" c s.tables && (has_row id servers && str_eq j key))
                id key (selected (lookup id (column_values (lookup c s.legacy)))))
            same)
          (legacy_config-same rest id key t same)
