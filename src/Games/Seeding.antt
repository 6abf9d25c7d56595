-- ===== src/Games/Seeding.antt =====
-- What seeding a game leaves in the database (master/gamedefs.go seedGames).
use mathlib.Core.Option
use game_server_manager.Base.{
  ℕ, suc, ◌≡◌, ◌⊎◌, refl, ap, sym, subst, ◌∙◌, inl, inr, true, false, not, Option, none, some, [],
  ◌∷◌, ◌++◌, String, arith, str_eq, string_key, eq_iff, eq_refl, keep, find, map, or_else, All,
  Option-cases, find-passes,
}
use game_server_manager.Base.Int.{ℤ, pos, int_eq}
use game_server_manager.Db.{Db, GameDefinitionRow, PortMappingRow, update_rows, exec}
use game_server_manager.Db.Rows.{
  find-update_rows, find-append_none, find-append_other, find-update_other,
}
use game_server_manager.Games.{
  PortMappingDef, GameDefinition, GameFaults, definition_by_slug, definition_by_name,
  definition_allowed, update_definition, new_definition, upsert_definition, mapping_allowed,
  mapping_row, insert_mappings, delete_mappings, is_mode, find_mode, mode_allowed, upsert_modes,
  seed_parts, seed_game,
}
use game_server_manager.Games.Modes.{
  last_config, config_of, config-upsert_modes, upsert_modes-tables, upsert_modes-other,
}
use game_server_manager.Games.Mappings.{
  is_mapping_of, own_mappings, other_mappings, insert_mappings-rows, keep_own, keep_others,
}

-- The row of a seeded game, but for its id and its name.
abbrev pub seeded_row : ℤ → String → GameDefinition → GameDefinitionRow
seeded_row id name g = record {
  id = id;
  name = name;
  slug = g.slug;
  docker_image = g.docker_image;
  default_port = g.default_port;
  default_max_players = g.max_players;
  default_env = g.default_env;
  data_path = g.data_path;
  field_mappings = g.field_mappings;
  custom_fields = g.custom_fields;
}

abbrev pub seeded_mapping : ℤ → PortMappingDef → PortMappingRow
seeded_mapping id pm = record {
  game_definition_id = id;
  label = pm.label;
  container_port = pm.container_port;
  protocol = pm.protocol;
  host_port_offset = pm.host_port_offset;
  description = pm.description;
}

-- The id and the name of a seeded game: those that stand, or else a new id and the game's own name.
abbrev pub seeded_id : ℕ → Option GameDefinitionRow → ℤ
seeded_id seq none = pos seq
seeded_id seq (some d) = d.id

abbrev pub seeded_name : GameDefinition → Option GameDefinitionRow → String
seeded_name g none = g.name
seeded_name g (some d) = d.name

-- A successful upsert.
record IsUpserted (g : GameDefinition) (db : Db) : Type 0 where
  id : ℤ
  name : String
  mid : Db
  answers : upsert_definition false g db ≡ some (id, mid)
  same_id : id ≡ seeded_id db.definitions_seq (definition_by_slug g.slug db)
  same_name : name ≡ seeded_name g (definition_by_slug g.slug db)
  finds : definition_by_slug g.slug mid ≡ some (seeded_row id name g)
  mappings : mid.game_port_mappings ≡ db.game_port_mappings
  modes : mid.game_modes ≡ db.game_modes
  servers : mid.game_servers ≡ db.game_servers
  others :
      (slug : String)
      → str_eq g.slug slug ≡ false
      → definition_by_slug slug mid ≡ definition_by_slug slug db

module _ (g : GameDefinition) (db : Db) (short : definition_allowed g ≡ true) where
  upsert_old : (d : GameDefinitionRow) → definition_by_slug g.slug db ≡ some d → IsUpserted g db
  unfolding upsert_definition
  upsert_old d old =
      let same : d.slug ≡ g.slug =
        (eq_iff d.slug g.slug).0
          (find-passes (λ x. str_eq x.slug g.slug) db.game_definitions d old) in
      let passes : str_eq d.slug g.slug ≡ true =
        find-passes (λ x. str_eq x.slug g.slug) db.game_definitions d old in
      record {
        id = d.id;
        name = d.name;
        mid = record db {
          definitions_seq = suc db.definitions_seq;
          game_definitions =
              update_rows (λ x. str_eq x.slug g.slug) (update_definition g) db.game_definitions;
        };
        answers = rw (short, old) refl;
        same_id = rw old refl;
        same_name = rw old refl;
        finds =
            find-update_rows (λ x. str_eq x.slug g.slug) (λ x. str_eq x.slug g.slug)
              (update_definition g) db.game_definitions (λ x. refl)
            ∙ rw (old, Option.map, passes)
                (ap (λ slug. some (record (update_definition g d) { slug = slug })) same);
        mappings = refl;
        modes = refl;
        servers = refl;
        others = λ slug other.
            find-update_other (λ x. str_eq x.slug slug) (λ x. str_eq x.slug g.slug)
              (update_definition g) db.game_definitions (λ x. refl)
              (λ x h. ground (arith, eq_iff x.slug slug, eq_iff x.slug g.slug, eq_iff g.slug slug));
      }

  upsert_new :
      definition_by_slug g.slug db ≡ none → definition_by_name g.name db ≡ none → IsUpserted g db
  unfolding upsert_definition
  upsert_new new free =
      let mine : str_eq g.slug g.slug ≡ true = eq_refl g.slug in
      record {
        id = pos db.definitions_seq;
        name = g.name;
        mid = record db {
          definitions_seq = suc db.definitions_seq;
          game_definitions = db.game_definitions ++ new_definition db.definitions_seq g ∷ [];
        };
        answers = rw (short, new, free) refl;
        same_id = rw new refl;
        same_name = rw new refl;
        finds =
            find-append_none (λ x. str_eq x.slug g.slug) db.game_definitions
              (new_definition db.definitions_seq g) new
            ∙ rw mine refl;
        mappings = refl;
        modes = refl;
        servers = refl;
        others = λ slug other.
            find-append_other (λ x. str_eq x.slug slug) db.game_definitions
              (new_definition db.definitions_seq g) other;
      }

-- What seeding a game leaves behind: its definition, under the id and the name that it had or else
-- under a new id and its own name; exactly its port mappings; the configs of its modes, the last one
-- of a slug winning. The modes that it no longer has, the port mappings and the modes of the other
-- games, the other games and the servers are as before.
pub record IsSeeded (g : GameDefinition) (db after : Db) : Type 0 where
  pub id : ℤ
  pub same_id : id ≡ seeded_id db.definitions_seq (definition_by_slug g.slug db)
  pub definition :
      definition_by_slug g.slug after
      ≡ some (seeded_row id (seeded_name g (definition_by_slug g.slug db)) g)
  pub mappings : own_mappings id after ≡ map (seeded_mapping id) g.port_mappings
  pub others_mappings : other_mappings id after ≡ other_mappings id db
  pub configs :
      (slug : String)
      → config_of id slug after ≡ or_else (last_config slug g.modes) (config_of id slug db)
  pub others_modes :
      (id' : ℤ) (slug : String)
      → int_eq id id' ≡ false
      → find_mode id' slug after ≡ find_mode id' slug db
  pub others :
      (slug : String)
      → str_eq g.slug slug ≡ false
      → definition_by_slug slug after ≡ definition_by_slug slug db
  pub servers : after.game_servers ≡ db.game_servers

module _ (fault : GameFaults) (g : GameDefinition) (db : Db) (upserts : fault.upsert ≡ false)
    (deletes : fault.delete ≡ false) (maps : (i : ℕ) → fault.mapping i ≡ false)
    (stores : (i : ℕ) → fault.mode i ≡ false)
    (mappings_short : All (λ pm. mapping_allowed pm ≡ true) g.port_mappings)
    (modes_short : All (λ m. mode_allowed m ≡ true) g.modes) where
  upserted-IsSeeded : IsUpserted g db → IsSeeded g db (seed_game fault g db)
  unfolding seed_game
  upserted-IsSeeded u = subst (IsSeeded g db) (sym total) (record {
    id = u.id;
    same_id = u.same_id;
    definition =
        ap (find (λ d. str_eq d.slug g.slug)) tables.0
        ∙ u.finds
        ∙ ap (λ name. some (seeded_row u.id name g)) u.same_name;
    mappings =
        ap (keep (is_mapping_of u.id)) tables.1
        ∙ keep_own u.id u.mid.game_port_mappings g.port_mappings;
    others_mappings =
        ap (keep (λ m. not (is_mapping_of u.id m))) tables.1
        ∙ keep_others u.id u.mid.game_port_mappings g.port_mappings
        ∙ ap (keep (λ m. not (is_mapping_of u.id m))) u.mappings;
    configs = λ slug.
        config-upsert_modes fault.mode 0 u.id g.modes slug mapped stores modes_short
        ∙ ap
            (λ rows.
              or_else (last_config slug g.modes)
                (Option.map (λ m. m.config) (find (is_mode u.id slug) rows)))
            u.modes;
    others_modes = λ id' slug other.
        upsert_modes-other fault.mode 0 u.id g.modes id' slug mapped other
        ∙ ap (find (is_mode id' slug)) u.modes;
    others = λ slug other. ap (find (λ d. str_eq d.slug slug)) tables.0 ∙ u.others slug other;
    servers = tables.2 ∙ u.servers;
  })
    where
      mapped : Db
      mapped = record u.mid {
        game_port_mappings =
            keep (λ m. not (is_mapping_of u.id m)) u.mid.game_port_mappings
            ++ map (mapping_row u.id) g.port_mappings;
      }

      total : seed_game fault g db ≡ upsert_modes fault.mode 0 u.id g.modes mapped
      total =
          ap (λ failing. seed_parts fault g db (upsert_definition failing g db)) upserts
          ∙ ap (seed_parts fault g db) u.answers
          ∙ ap
              (λ failing. upsert_modes fault.mode 0 u.id g.modes (
                insert_mappings fault.mapping 0 u.id g.port_mappings
                  (exec failing u.mid (delete_mappings u.id u.mid))))
              deletes
          ∙ ap (upsert_modes fault.mode 0 u.id g.modes) (
              insert_mappings-rows fault.mapping 0 u.id g.port_mappings (delete_mappings u.id u.mid)
                maps mappings_short)

      tables :
          ((upsert_modes fault.mode 0 u.id g.modes mapped).game_definitions
            ≡ mapped.game_definitions)
          × ((upsert_modes fault.mode 0 u.id g.modes mapped).game_port_mappings
              ≡ mapped.game_port_mappings)
          × ((upsert_modes fault.mode 0 u.id g.modes mapped).game_servers ≡ mapped.game_servers)
      tables = upsert_modes-tables fault.mode 0 u.id g.modes mapped

  -- Seeding a game whose values fit their columns, with no failing statement, leaves it seeded, if
  -- its slug is there already or its name is free.
  pub seed_game-IsSeeded :
      definition_allowed g ≡ true
      → (definition_by_name g.name db ≡ none)
        ⊎ ((d : GameDefinitionRow) × (definition_by_slug g.slug db ≡ some d))
      → IsSeeded g db (seed_game fault g db)
  seed_game-IsSeeded short (inr (d, old)) = upserted-IsSeeded (upsert_old g db short d old)
  seed_game-IsSeeded short (inl free) = elim (Option-cases (definition_by_slug g.slug db)) [
    | inl new ↦ upserted-IsSeeded (upsert_new g db short new free)
    | inr (d, old) ↦ upserted-IsSeeded (upsert_old g db short d old)
  ]
