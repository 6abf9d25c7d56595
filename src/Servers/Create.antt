-- ===== src/Servers/Create.antt =====
-- createServer (master/api_servers.go): the new row and its config.
use Prim.Native.Char.{Char}
use Prim.Native.String
use game_server_manager.Base.{
  ℕ, ◌≡◌, ◌⊎◌, inl, inr, refl, ap, ◌∙◌, arith, eq_iff, Bool-cases, true, false, none, some, [], ◌∷◌,
  String, if◌then◌else◌, find, str_eq,
}
use game_server_manager.Base.Int.{ℤ, pos, int_eq, int_eq_iff}
use game_server_manager.Db.{
  Db, Faults, ServerRow, varchar, server_by_id, agent_by_id, definition_by_id, mode_by_id,
}
use game_server_manager.Db.Rows.{find-append_none, find-append_some}
use game_server_manager.ContainerName.{container_name, IsDashed, container_name-IsDashed}
use game_server_manager.Api.{created}
use game_server_manager.Agents.{World}
use game_server_manager.Servers.{
  CreateRequest, find_config, insert_configs, insert_server, insert_allowed, new_server,
  is_incomplete, create_server,
}
use game_server_manager.Servers.CreateConfigs.{
  first_value, stored_config, insert_configs-servers, insert_configs-find, insert_configs-other,
}

-- What a request that is accepted leaves behind.
pub record IsCreated (lower : Char → Char) (r : CreateRequest) (w w' : World) : Type 0 where
  pub server :
      server_by_id (pos w.db.servers_seq) w'.db
      ≡ some (record {
        id = pos w.db.servers_seq;
        agent_id = r.agent_id;
        game_definition_id = r.game_definition_id;
        game_mode_id = r.game_mode_id;
        name = r.name;
        container_id = none;
        container_name = container_name lower r.name;
        port = r.port;
        max_players = r.max_players;
        password = if str_eq r.password "" then none else some r.password;
        rcon_password = if str_eq r.rcon_password "" then none else some r.rcon_password;
        status = "stopped";
        created_at = w.db.now;
        updated_at = w.db.now;
      })
  pub container :
      (t : String) × (container_name lower r.name ≡ String.◌++◌ "lanmaster-" t)
      × IsDashed lower r.name t
  pub others :
      (id : ℤ) (s : ServerRow) → server_by_id id w.db ≡ some s → server_by_id id w'.db ≡ some s
  pub configs :
      (key : String)
      → varchar 128 key ≡ true
      → find_config (pos w.db.servers_seq) key w'.db
        ≡ stored_config (pos w.db.servers_seq) key (first_value key r.custom_config)
  pub others_configs :
      (id : ℤ) (key : String)
      → int_eq id (pos w.db.servers_seq) ≡ false
      → find_config id key w'.db ≡ find_config id key w.db

-- A complete request that the constraints allow, with no failing statement and a new id, is
-- answered by 201 and that id; the server is stored under it as requested, an empty password as
-- none, stopped, with a container name made from "lanmaster-" and its dashed name; its config holds
-- the request's non-empty values; no other server and none of their config changes.
pub create_server-IsCreated :
    (lower : Char → Char) (fault : Faults) (r : CreateRequest) (w : World)
    → ((j : ℕ) → fault j ≡ false)
    → is_incomplete r ≡ false
    → insert_allowed r (container_name lower r.name) w.db ≡ true
    → server_by_id (pos w.db.servers_seq) w.db ≡ none
    → ((key : String) → find_config (pos w.db.servers_seq) key w.db ≡ none)
    → ((create_server lower fault (some r) w).1
        ≡ record { status = 201; body = created (pos w.db.servers_seq) })
      × IsCreated lower r w (create_server lower fault (some r) w).0
unfolding create_server
create_server-IsCreated lower fault r w ok complete allowed fresh no_config =
    rw (complete, ok 0, allowed)
      (
        refl,
        record {
          server =
              same_servers id
              ∙ find-append_none (λ x. int_eq x.id id) w.db.game_servers row fresh
              ∙ rw ((int_eq_iff id id).1 refl) refl;
          container = container_name-IsDashed lower r.name;
          others = λ id' s there.
              same_servers id'
              ∙ find-append_some (λ x. int_eq x.id id') w.db.game_servers (row ∷ []) s there;
          configs = λ key short.
              insert_configs-find fault 1 id r.custom_config after key ok short (no_config key);
          others_configs =
              λ id' key other. insert_configs-other fault 1 id r.custom_config after id' key other;
        },
      )
  where
    id : ℤ
    id = pos w.db.servers_seq

    row : ServerRow
    row = new_server r (container_name lower r.name) w.db

    after : Db
    after = insert_server r (container_name lower r.name) w.db

    same_servers :
        (i : ℤ)
        → server_by_id i (insert_configs fault 1 id r.custom_config after) ≡ server_by_id i after
    same_servers i =
        ap (find (λ x. int_eq x.id i)) (insert_configs-servers fault 1 id r.custom_config after)

-- A request that lacks its name, its port, its agent or its game.
abbrev pub Lacks : CreateRequest → Type 0
Lacks r = (r.name ≡ "") ⊎ (r.port ≡ pos 0) ⊎ (r.agent_id ≡ pos 0) ⊎ (r.game_definition_id ≡ pos 0)

-- A request for an agent, a game or a mode that is not there.
abbrev pub RefersAmiss : CreateRequest → Db → Type 0
RefersAmiss r db =
    (agent_by_id r.agent_id db ≡ none)
    ⊎ (definition_by_id r.game_definition_id db ≡ none)
    ⊎ ((id : ℤ) × (r.game_mode_id ≡ some id) × (mode_by_id id db ≡ none))

Lacks-is_incomplete : (r : CreateRequest) → Lacks r → is_incomplete r ≡ true
Lacks-is_incomplete r h = ground (
  arith,
  eq_iff r.name "",
  int_eq_iff r.port (pos 0),
  int_eq_iff r.agent_id (pos 0),
  int_eq_iff r.game_definition_id (pos 0),
)

RefersAmiss-insert_allowed :
    (r : CreateRequest) (container : String) (db : Db)
    → RefersAmiss r db
    → insert_allowed r container db ≡ false
RefersAmiss-insert_allowed r container db (inl e) = rw e refl
RefersAmiss-insert_allowed r container db (inr (inl e)) = rw e (ground arith)
RefersAmiss-insert_allowed r container db (inr (inr (id, e, f))) = rw (e, f) (ground arith)

-- A request that lacks its name, its port, its agent or its game, or that is for an agent, a game or
-- a mode that is not there, is answered by 400 or 500, whatever statements fail; no server and no
-- config is added or changed, and the hub is as before.
pub create_server_refuses :
    (lower : Char → Char) (fault : Faults) (r : CreateRequest) (w : World)
    → Lacks r ⊎ RefersAmiss r w.db
    → let answer = create_server lower fault (some r) w in
      ((answer.1.status ≡ 400) ⊎ (answer.1.status ≡ 500))
      × (answer.0.db.game_servers ≡ w.db.game_servers)
      × (answer.0.db.server_configs ≡ w.db.server_configs)
      × (answer.0.sys ≡ w.sys)
unfolding create_server
create_server_refuses lower fault r w (inl lacks) =
    rw (Lacks-is_incomplete r lacks) (inl refl, refl, refl, refl)
create_server_refuses lower fault r w (inr amiss) =
    let refused : insert_allowed r (container_name lower r.name) w.db ≡ false =
      RefersAmiss-insert_allowed r (container_name lower r.name) w.db amiss in
    elim (Bool-cases (is_incomplete r)) [
      | inl e ↦ rw e (inl refl, refl, refl, refl)
      | inr e ↦ elim (Bool-cases (fault 0)) [
        | inl f ↦ rw (e, f) (inr refl, refl, refl, refl)
        | inr f ↦ rw (e, f, refused) (inr refl, refl, refl, refl)
      ]
    ]
