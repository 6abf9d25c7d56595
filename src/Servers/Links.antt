-- ===== src/Servers/Links.antt =====
-- The rows that refer to each other: what the foreign keys of game_servers and server_configs ask
-- (master/db.go runMigrations), under the statements of the handlers.
use game_server_manager.Base.{
  suc, ◌≡◌, refl, ap, ◌∙◌, inl, inr, Bool, true, false, not, Option, none, some, List, [], ◌∷◌,
  ◌++◌, String, find, keep, is_some, All, All-append, All-implies, Bool-cases,
}
use game_server_manager.Base.Int.{ℤ, int_eq, int_eq_iff}
use game_server_manager.Db.{
  Db, AgentRow, ServerRow, ConfigRow, agent_by_id, definition_by_id, server_by_id, update_rows,
  update_agents, update_servers,
}
use game_server_manager.Db.Rows.{
  find-keep_other, All-update_rows, All-keep_passing, is_some-find-update_rows, is_some-find-append,
}
use game_server_manager.Servers.{mode_exists}
use game_server_manager.Commands.{delete_server_rows, record_rcon}

-- The agent, the game and the mode of a server are there.
abbrev pub ServerLinked : Db → ServerRow → Type 0
ServerLinked db s =
    (is_some (agent_by_id s.agent_id db) ≡ true)
    × (is_some (definition_by_id s.game_definition_id db) ≡ true)
    × (mode_exists s.game_mode_id db ≡ true)

abbrev pub ConfigLinked : Db → ConfigRow → Type 0
ConfigLinked db c = is_some (server_by_id c.game_server_id db) ≡ true

pub record Linked (db : Db) : Type 0 where
  pub servers : All (ServerLinked db) db.game_servers
  pub configs : All (ConfigLinked db) db.server_configs

pub mode_exists-same :
    (id : Option ℤ) (db after : Db)
    → after.game_modes ≡ db.game_modes
    → mode_exists id db ≡ true
    → mode_exists id after ≡ true
mode_exists-same none db after same h = refl
mode_exists-same (some id) db after same h =
    ap (λ modes. is_some (find (λ m. int_eq m.id id) modes)) same ∙ h

-- The rows that a server refers to are in tables that are as before.
pub servers-same :
    (db after : Db) (xs : List ServerRow)
    → after.agents ≡ db.agents
    → after.game_definitions ≡ db.game_definitions
    → after.game_modes ≡ db.game_modes
    → All (ServerLinked db) xs
    → All (ServerLinked after) xs
servers-same db after xs agents definitions modes =
    All-implies (ServerLinked db) (ServerLinked after) xs λ s h. (
      ap (λ rows. is_some (find (λ a. int_eq a.id s.agent_id) rows)) agents ∙ h.0,
      ap (λ rows. is_some (find (λ d. int_eq d.id s.game_definition_id) rows)) definitions ∙ h.1,
      mode_exists-same s.game_mode_id db after modes h.2,
    )

pub update_servers-Linked :
    (test : ServerRow → Bool) (change : ServerRow → ServerRow) (db : Db)
    → ((s : ServerRow) → (change s).id ≡ s.id)
    → ((s : ServerRow) → ServerLinked db s → ServerLinked db (change s))
    → Linked db
    → Linked (update_servers test change db)
update_servers-Linked test change db same linked h = record {
  servers =
      servers-same db (update_servers test change db) (update_rows test change db.game_servers) refl
        refl refl (All-update_rows (ServerLinked db) test change db.game_servers linked h.servers);
  configs =
      All-implies (ConfigLinked db) (ConfigLinked (update_servers test change db)) db.server_configs
        (λ c found.
          is_some-find-update_rows (λ s. int_eq s.id c.game_server_id) test change db.game_servers
            (λ s. ap (λ id. int_eq id c.game_server_id) (same s)) found)
        h.configs;
}

pub update_agents-Linked :
    (test : AgentRow → Bool) (change : AgentRow → AgentRow) (db : Db)
    → ((a : AgentRow) → (change a).id ≡ a.id)
    → Linked db
    → Linked (update_agents test change db)
update_agents-Linked test change db same h = record {
  servers =
      All-implies (ServerLinked db) (ServerLinked (update_agents test change db)) db.game_servers
        (λ s found. (
          is_some-find-update_rows (λ a. int_eq a.id s.agent_id) test change db.agents
              (λ a. ap (λ id. int_eq id s.agent_id) (same a)) found.0,
          found.1,
          mode_exists-same s.game_mode_id db (update_agents test change db) refl found.2,
        ))
        h.servers;
  configs = h.configs;
}

abbrev pub append_server : ServerRow → Db → Db
append_server s db = record db {
  servers_seq = suc db.servers_seq;
  game_servers = db.game_servers ++ s ∷ [];
}

pub append_server-Linked :
    (s : ServerRow) (db : Db) → ServerLinked db s → Linked db → Linked (append_server s db)
append_server-Linked s db linked h = record {
  servers =
      servers-same db (append_server s db) (db.game_servers ++ s ∷ []) refl refl refl
        (All-append (ServerLinked db) db.game_servers (s ∷ []) h.servers (linked, tt));
  configs =
      All-implies (ConfigLinked db) (ConfigLinked (append_server s db)) db.server_configs
        (λ c. is_some-find-append (λ x. int_eq x.id c.game_server_id) db.game_servers (s ∷ []))
        h.configs;
}

abbrev pub with_configs : List ConfigRow → Db → Db
with_configs rows db = record db { server_configs = rows }

pub with_configs-Linked :
    (rows : List ConfigRow) (db : Db)
    → All (ConfigLinked db) rows
    → Linked db
    → Linked (with_configs rows db)
with_configs-Linked rows db linked h = record {
  servers = servers-same db (with_configs rows db) db.game_servers refl refl refl h.servers;
  configs = linked;
}

fails_unless : (b : Bool) → not b ≡ true → b ≡ false
fails_unless true k = absurd (cc)
fails_unless false k = refl

pub delete_server_rows-Linked : (id : ℤ) (db : Db) → Linked db → Linked (delete_server_rows id db)
delete_server_rows-Linked id db h = record {
  servers =
      servers-same db (delete_server_rows id db) (keep (λ s. not (int_eq s.id id)) db.game_servers)
        refl refl refl
        (All-keep_passing (ServerLinked db) (ServerLinked db) (λ s. not (int_eq s.id id))
          db.game_servers (λ s e k. k) h.servers);
  configs =
      All-keep_passing (ConfigLinked db) (ConfigLinked (delete_server_rows id db))
        (λ c. not (int_eq c.game_server_id id)) db.server_configs
        (λ c other found.
          ap is_some (
            find-keep_other (λ s. int_eq s.id c.game_server_id) (λ s. int_eq s.id id)
              db.game_servers (λ s e. other_id s c e other))
          ∙ found)
        h.configs;
}
  where
    other_id :
        (s : ServerRow) (c : ConfigRow)
        → int_eq s.id c.game_server_id ≡ true
        → not (int_eq c.game_server_id id) ≡ true
        → int_eq s.id id ≡ false
    other_id s c e k = rw ((int_eq_iff s.id c.game_server_id).0 e) (fails_unless _ k)

-- agents WHERE id <> id
abbrev pub without_agent : ℤ → Db → Db
without_agent id db = record db { agents = keep (λ a. not (int_eq a.id id)) db.agents }

pub without_agent-Linked :
    (id : ℤ) (db : Db)
    → find (λ s. int_eq s.agent_id id) db.game_servers ≡ none
    → Linked db
    → Linked (without_agent id db)
without_agent-Linked id db unused h = record {
  servers = carried db.game_servers unused h.servers;
  configs = h.configs;
}
  where
    carried :
        (xs : List ServerRow)
        → find (λ s. int_eq s.agent_id id) xs ≡ none
        → All (ServerLinked db) xs
        → All (ServerLinked (without_agent id db)) xs
    carried [] e k = tt
    carried (s ∷ xs) e k = elim (Bool-cases (int_eq s.agent_id id)) [
      | inl f ↦ let bad : ◌≡◌ {A = Option ServerRow} (some s) none = rw f at e in absurd (cc)
      | inr f ↦ (
        (
          ap is_some (
                find-keep_other (λ a. int_eq a.id s.agent_id) (λ a. int_eq a.id id) db.agents
                  (λ a same. rw ((int_eq_iff a.id s.agent_id).0 same) f))
              ∙ k.0.0,
          k.0.1,
          mode_exists-same s.game_mode_id db (without_agent id db) refl k.0.2,
        ),
        carried xs (rw f at e) k.1,
      )
    ]

pub record_rcon-Linked :
    (failing : Bool) (id : ℤ) (command : String) (db : Db)
    → Linked db
    → Linked (record_rcon failing id command db)
record_rcon-Linked true id command db h = h
record_rcon-Linked false id command db h = record {
  servers =
      servers-same db (record_rcon false id command db) db.game_servers refl refl refl h.servers;
  configs = h.configs;
}
