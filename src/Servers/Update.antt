-- ===== src/Servers/Update.antt =====
-- updateServer (master/api_servers.go): what it changes and what it leaves alone.
use mathlib.Core.Option
use game_server_manager.Base.{
  ℕ, ◌≡◌, refl, ap, ◌∙◌, true, false, none, some, String, arith, if◌then◌else◌, str_eq, find,
  find-passes,
}
use game_server_manager.Base.Int.{ℤ, pos, int_eq, int_eq_iff}
use game_server_manager.Db.{
  Db, Faults, ServerRow, varchar, is_integer, server_by_id, update_servers,
}
use game_server_manager.Db.Rows.{find-update_rows, find-update_other}
use game_server_manager.StartPayload.Env.{last_value}
use game_server_manager.Agents.{World}
use game_server_manager.Servers.{
  UpdateRequest, find_config, update_configs, update_server, update_allowed, change_server,
}
use game_server_manager.Servers.UpdateConfigs.{
  after_entries, update_configs-find, update_configs-servers, update_configs-other,
}

-- What a successful update leaves behind.
pub record IsUpdated (r : UpdateRequest) (id : ℤ) (w w' : World) (s : ServerRow) : Type 0 where
  pub server :
      server_by_id id w'.db
      ≡ some (record s {
        port = if int_eq r.port (pos 0) then s.port else r.port;
        max_players = if int_eq r.max_players (pos 0) then s.max_players else r.max_players;
        password = if str_eq r.password "" then none else some r.password;
        rcon_password = if str_eq r.rcon_password "" then none else some r.rcon_password;
        updated_at = w.db.now;
      })
  pub others : (id' : ℤ) → int_eq id' id ≡ false → server_by_id id' w'.db ≡ server_by_id id' w.db
  pub configs :
      (key : String)
      → varchar 128 key ≡ true
      → find_config id key w'.db
        ≡ after_entries id key (last_value key r.custom_config) (find_config id key w.db)
  pub others_configs :
      (id' : ℤ) (key : String)
      → int_eq id' id ≡ false
      → find_config id' key w'.db ≡ find_config id' key w.db

-- A valid update of an existing server, with no failing statement, answers 200, keeps a port or a
-- number of players that the request leaves at 0, replaces both passwords, stores the request's
-- config entries, and changes no other server and none of their config.
pub update_server-IsUpdated :
    (fault : Faults) (r : UpdateRequest) (id : ℤ) (w : World) (s : ServerRow)
    → ((j : ℕ) → fault j ≡ false)
    → is_integer id ≡ true
    → update_allowed r (some s) ≡ true
    → server_by_id id w.db ≡ some s
    → ((update_server fault (some r) id w).1.status ≡ 200)
      × IsUpdated r id w (update_server fault (some r) id w).0 s
unfolding update_server
update_server-IsUpdated fault r id w s ok number allowed found =
    rw (ok 0, found, number, allowed)
      (
        refl,
        record {
          server =
              same_servers id
              ∙ find-update_rows (λ x. int_eq x.id id) (λ x. int_eq x.id id) (change_server r w.db)
                  w.db.game_servers (λ x. refl)
              ∙ rw (found, Option.map, find-passes (λ x. int_eq x.id id) w.db.game_servers s found)
                  refl;
          others = λ id' other.
              same_servers id'
              ∙ find-update_other (λ x. int_eq x.id id') (λ x. int_eq x.id id)
                  (change_server r w.db) w.db.game_servers (λ x. refl)
                  (λ x h.
                    ground (arith, int_eq_iff x.id id', int_eq_iff x.id id, int_eq_iff id' id));
          configs = λ key short. update_configs-find fault 1 id r.custom_config after key ok short;
          others_configs =
              λ id' key other. update_configs-other fault 1 id r.custom_config after id' key other;
        },
      )
  where
    after : Db
    after = update_servers (λ x. int_eq x.id id) (change_server r w.db) w.db

    same_servers :
        (i : ℤ)
        → server_by_id i (update_configs fault 1 id r.custom_config after) ≡ server_by_id i after
    same_servers i =
        ap (find (λ x. int_eq x.id i)) (update_configs-servers fault 1 id r.custom_config after)
