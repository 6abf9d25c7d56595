-- ===== src/Master/Seeded.antt =====
-- The rows that refer to each other, under the start of the master: the migrations and the seeding of
-- the games (master/db.go initDB, runMigrations; master/gamedefs.go seedGames).
use game_server_manager.Base.{
  ℕ, suc, ◌≡◌, refl, ap, sym, ◌∙◌, Bool, true, not, Option, none, some, List, [], ◌∷◌, str_eq,
  is_some, find, All, All-implies, choose, string_key, subst,
}
use game_server_manager.Base.Int.{ℤ, int_eq, int_key}
use game_server_manager.Db.{Db, GameDefinitionRow, definition_by_id, mode_by_id}
use game_server_manager.Db.Rows.{is_some-find-update_rows, is_some-find-append}
use game_server_manager.Servers.{mode_exists}
use game_server_manager.Servers.Links.{Linked, ServerLinked, ConfigLinked}
use game_server_manager.Games.{
  GameFaults, GameDefinition, GameModeDef, PortMappingDef, seed_games, seed_game, seed_parts,
  upsert_definition, upsert_found, insert_mappings, upsert_modes, upsert_mode, definition_allowed,
  mapping_allowed, mode_allowed, find_mode, is_mode, definition_by_name, definition_by_slug,
  update_definition,
}

-- Games and modes may be added, the other rows stay.
pub grown-Linked :
    (db after : Db)
    → after.game_servers ≡ db.game_servers
    → after.server_configs ≡ db.server_configs
    → after.agents ≡ db.agents
    → ((id : ℤ)
        → is_some (definition_by_id id db) ≡ true
        → is_some (definition_by_id id after) ≡ true)
    → ((id : ℤ) → is_some (mode_by_id id db) ≡ true → is_some (mode_by_id id after) ≡ true)
    → Linked db
    → Linked after
grown-Linked db after servers configs agents definitions modes h = record {
  servers = subst (All (ServerLinked after)) (sym servers) (
      All-implies (ServerLinked db) (ServerLinked after) db.game_servers
        (λ s k. (
          ap (λ rows. is_some (find (λ a. int_eq a.id s.agent_id) rows)) agents ∙ k.0,
          definitions s.game_definition_id k.1,
          in_mode s.game_mode_id k.2,
        ))
        h.servers);
  configs = subst (All (ConfigLinked after)) (sym configs) (
      All-implies (ConfigLinked db) (ConfigLinked after) db.server_configs
        (λ c k. ap (λ rows. is_some (find (λ s. int_eq s.id c.game_server_id) rows)) servers ∙ k)
        h.configs);
}
  where
    in_mode : (id : Option ℤ) → mode_exists id db ≡ true → mode_exists id after ≡ true
    in_mode none k = refl
    in_mode (some id) k = modes id k

module _ (g : GameDefinition) where
  abbrev PairLinked : Option (ℤ × Db) → Type 0
  PairLinked none = Unit
  PairLinked (some (_, db)) = Linked db

  upsert_found-Linked :
      (db : Db) (o : Option GameDefinitionRow) → Linked db → PairLinked (upsert_found g db o)
  upsert_found-Linked db (some d) h =
      grown-Linked db _ refl refl refl
        (λ id.
          is_some-find-update_rows (λ x. int_eq x.id id) (λ x. str_eq x.slug g.slug)
            (update_definition g) db.game_definitions (λ x. refl))
        (λ id k. k) h
  upsert_found-Linked db none h = choose PairLinked (is_some (definition_by_name g.name db)) tt (
      grown-Linked db _ refl refl refl
        (λ id. is_some-find-append (λ x. int_eq x.id id) db.game_definitions _) (λ id k. k) h)

  upsert_definition-Linked :
      (failing : Bool) (db : Db) → Linked db → PairLinked (upsert_definition failing g db)
  unfolding upsert_definition
  upsert_definition-Linked failing db h = choose PairLinked failing tt (
      choose PairLinked (not (definition_allowed g)) tt
        (upsert_found-Linked db (definition_by_slug g.slug db) h))

with_mappings-Linked :
    (db after : Db)
    → after ≡ record db { game_port_mappings = after.game_port_mappings }
    → Linked db
    → Linked after
with_mappings-Linked db after same h =
    subst Linked (sym same) (grown-Linked db _ refl refl refl (λ id k. k) (λ id k. k) h)

insert_mappings-Linked :
    (fault : ℕ → Bool) (i : ℕ) (id : ℤ) (pms : List PortMappingDef) (db : Db)
    → Linked db
    → Linked (insert_mappings fault i id pms db)
unfolding insert_mappings
insert_mappings-Linked fault i id [] db h = h
insert_mappings-Linked fault i id (pm ∷ pms) db h = insert_mappings-Linked fault (suc i) id pms _ (
    choose Linked (fault i) h
      (choose Linked (mapping_allowed pm) (with_mappings-Linked db _ refl h) h))

upsert_mode-Linked : (id : ℤ) (m : GameModeDef) (db : Db) → Linked db → Linked (upsert_mode id m db)
upsert_mode-Linked id m db h = choose Linked (not (mode_allowed m)) h (
    choose Linked (is_some (find_mode id m.slug db))
      (grown-Linked db _ refl refl refl (λ id k. k)
        (λ j.
          is_some-find-update_rows (λ x. int_eq x.id j) (is_mode id m.slug)
            (λ x. record x { config = m.config }) db.game_modes (λ x. refl))
        h)
      (grown-Linked db _ refl refl refl (λ id k. k)
        (λ j. is_some-find-append (λ x. int_eq x.id j) db.game_modes _) h))

upsert_modes-Linked :
    (fault : ℕ → Bool) (i : ℕ) (id : ℤ) (ms : List GameModeDef) (db : Db)
    → Linked db
    → Linked (upsert_modes fault i id ms db)
unfolding upsert_modes
upsert_modes-Linked fault i id [] db h = h
upsert_modes-Linked fault i id (m ∷ ms) db h =
    upsert_modes-Linked fault (suc i) id ms _
      (choose Linked (fault i) h (upsert_mode-Linked id m db h))

seed_game-Linked :
    (fault : GameFaults) (g : GameDefinition) (db : Db) → Linked db → Linked (seed_game fault g db)
unfolding seed_game
seed_game-Linked fault g db h = parts _ (upsert_definition-Linked g fault.upsert db h)
  where
    parts : (o : Option (ℤ × Db)) → PairLinked g o → Linked (seed_parts fault g db o)
    parts none k = h
    parts (some (id, after)) k = upsert_modes-Linked fault.mode 0 id g.modes _ (
        insert_mappings-Linked fault.mapping 0 id g.port_mappings _
          (choose Linked fault.delete k (with_mappings-Linked after _ refl k)))

pub seed_games-Linked :
    (faults : ℕ → GameFaults) (i : ℕ) (games : List GameDefinition) (db : Db)
    → Linked db
    → Linked (seed_games faults i games db)
unfolding seed_games
seed_games-Linked faults i [] db h = h
seed_games-Linked faults i (g ∷ games) db h =
    seed_games-Linked faults (suc i) games _ (seed_game-Linked (faults i) g db h)
