-- ===== src/Servers/Linked.antt =====
-- The rows that refer to each other, under createServer and updateServer (master/api_servers.go).
use Prim.Native.Char.{Char}
use game_server_manager.Base.{
  ℕ, suc, ◌≡◌, refl, true, not, Option, none, some, List, [], ◌∷◌, String, arith, str_eq, is_some,
  All, All-keep, All-append, string_key, choose, otherwise, holds_unless,
}
use game_server_manager.Base.Int.{ℤ, pos, int_eq, int_eq_iff}
use game_server_manager.Db.{Db, Faults, ConfigRow, server_by_id, update_servers}
use game_server_manager.ContainerName.{container_name}
use game_server_manager.Db.Rows.{All-update_rows, is_some-find-update_rows, is_some-find-last}
use game_server_manager.Api.{Response}
use game_server_manager.Agents.{World}
use game_server_manager.Servers.{
  add_config, CreateRequest, UpdateRequest, is_config, insert_config, insert_configs, insert_server,
  upsert_config, delete_config, update_configs, create_server, update_server, change_server,
  is_incomplete, insert_allowed, new_server, skip_number,
}
use game_server_manager.Servers.Links.{
  ServerLinked, ConfigLinked, Linked, servers-same, update_servers-Linked, append_server-Linked,
  with_configs, with_configs-Linked,
}

abbrev pub Answered : World × Response → Type 0
Answered r = Linked r.0.db

-- What the loops over a request's config keep.
abbrev Ready : ℤ → Db → Type 0
Ready id db = Linked db × (is_some (server_by_id id db) ≡ true)

module _ (id : ℤ) where
  with_rows :
      (rows : List ConfigRow) (db : Db)
      → All (ConfigLinked db) rows
      → Ready id db
      → Ready id (with_configs rows db)
  with_rows rows db linked h = (with_configs-Linked rows db linked h.0, h.1)

  pub add-Ready :
      (key value : String) (db : Db) → Ready id db → Ready id (add_config id key value db)
  add-Ready key value db h =
      with_rows _ db (All-append (ConfigLinked db) db.server_configs _ h.0.configs (h.1, tt)) h

  pub insert_config-Ready :
      (key value : String) (db : Db) → Ready id db → Ready id (insert_config id key value db)
  insert_config-Ready key value db h = choose (Ready id) _ h (add-Ready key value db h)

  pub delete_config-Ready :
      (key : String) (db : Db) → Ready id db → Ready id (delete_config id key db)
  delete_config-Ready key db h =
      with_rows _ db
        (All-keep (ConfigLinked db) (λ c. not (is_config id key c)) db.server_configs h.0.configs) h

  pub upsert_config-Ready :
      (key value : String) (db : Db) → Ready id db → Ready id (upsert_config id key value db)
  upsert_config-Ready key value db h = choose (Ready id) _ h (
      choose (Ready id) _
        (with_rows _ db
          (All-update_rows (ConfigLinked db) (is_config id key) (λ c. record c { value = value })
            db.server_configs (λ c k. k) h.0.configs)
          h)
        (add-Ready key value db h))

  pub insert_configs-Ready :
      (fault : Faults) (i : ℕ) (entries : List (String × String)) (db : Db)
      → Ready id db
      → Ready id (insert_configs fault i id entries db)
  unfolding insert_configs
  insert_configs-Ready fault i [] db h = h
  insert_configs-Ready fault i ((k, v) ∷ entries) db h =
      insert_configs-Ready fault (suc i) entries _ (
        choose (Ready id) (str_eq v "") h
          (choose (Ready id) (fault i) h (insert_config-Ready k v db h)))

  pub update_configs-Ready :
      (fault : Faults) (i : ℕ) (entries : List (String × String)) (db : Db)
      → Ready id db
      → Ready id (update_configs fault i id entries db)
  unfolding update_configs
  update_configs-Ready fault i [] db h = h
  update_configs-Ready fault i ((k, v) ∷ entries) db h =
      update_configs-Ready fault (suc i) entries _ (
        choose (Ready id) (fault i) h (
          choose (Ready id) (str_eq v "") (delete_config-Ready k db h)
            (upsert_config-Ready k v db h)))

  pub update_server-Linked :
      (fault : Faults) (r : Option UpdateRequest) (w : World)
      → Linked w.db
      → Linked (update_server fault r id w).0.db
  unfolding update_server
  update_server-Linked fault none w h = h
  update_server-Linked fault (some r) w h = choose Answered _ h (
      otherwise Answered (not (is_some (server_by_id id w.db))) h λ found.
        (update_configs-Ready fault 1 r.custom_config
          (update_servers (λ s. int_eq s.id id) (change_server r w.db) w.db)
          (
            update_servers-Linked (λ s. int_eq s.id id) (change_server r w.db) w.db (λ s. refl)
                (λ s k. k) h,
            is_some-find-update_rows (λ s. int_eq s.id id) (λ s. int_eq s.id id)
                (change_server r w.db) w.db.game_servers (λ s. refl) (holds_unless _ found),
          )).0)

allowed-ServerLinked :
    (r : CreateRequest) (container : String) (db : Db)
    → insert_allowed r container db ≡ true
    → ServerLinked db (new_server r container db)
allowed-ServerLinked r container db h = (ground (arith, h), ground (arith, h), ground (arith, h))

skip_number-Linked : (db : Db) → Linked db → Linked (skip_number db)
skip_number-Linked db h = record {
  servers = servers-same db (skip_number db) db.game_servers refl refl refl h.servers;
  configs = h.configs;
}

pub create_server-Linked :
    (lower : Char → Char) (fault : Faults) (r : Option CreateRequest) (w : World)
    → Linked w.db
    → Linked (create_server lower fault r w).0.db
unfolding create_server
create_server-Linked lower fault none w h = h
create_server-Linked lower fault (some r) w h =
    let container = container_name lower r.name in
    let row = new_server r container w.db in
    choose Answered (is_incomplete r) h (
      choose Answered (fault 0) h (
        otherwise Answered (not (insert_allowed r container w.db)) (skip_number-Linked w.db h)
          λ allowed.
            (insert_configs-Ready (pos w.db.servers_seq) fault 1 r.custom_config
              (insert_server r container w.db)
              (
                append_server-Linked row w.db
                    (allowed-ServerLinked r container w.db (holds_unless _ allowed)) h,
                is_some-find-last (λ s. int_eq s.id (pos w.db.servers_seq)) w.db.game_servers row
                    ((int_eq_iff (pos w.db.servers_seq) (pos w.db.servers_seq)).1 refl),
              )).0))
