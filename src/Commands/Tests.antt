-- ===== src/Commands/Tests.antt =====
-- Concrete servers: their payloads, creation, update and commands.
use Prim.Native.Char.{Char}
use Prim.Native.String.{String}
use game_server_manager.Base.{
  ◌≡◌, ◌⊎◌, inl, inr, refl, none, some, List, [], ◌∷◌, arith, lookup, insert, string_key, or_else,
}
use game_server_manager.Base.Int.{pos, add_int}
use game_server_manager.Base.Decimal.{itoa}
use game_server_manager.Protocol.{message, start_server, stop_server, StartServerPayload}
use game_server_manager.Hub.{done, new_chan}
use game_server_manager.ContainerName.{container_name, to_lower, replace_separators}
use game_server_manager.StartPayload.{
  built, build_server_start_payload, joined_by_id, assign_all, env_assignments, field_vars,
  port_vars, payload,
}
use game_server_manager.StartPayload.Env.{last_value, build_server_start_payload-env}
use game_server_manager.Api.{write_error, created}
use game_server_manager.Servers.{CreateRequest, UpdateRequest, create_server, update_server}
use game_server_manager.Servers.Create.{IsCreated, create_server-IsCreated, create_server_refuses}
use game_server_manager.Servers.Update.{IsUpdated, update_server-IsUpdated}
use game_server_manager.Commands.{start_handler, stop_handler, rcon_handler, server_with_agent}
use game_server_manager.Commands.Status.{IsSent, start_handler-IsSent, stop_handler-IsSent}
use game_server_manager.Commands.Refused.{commands_not_connected}
use game_server_manager.Samples.{
  no_faults, lan_agent, lan_conn, cs2, match_server, sample_db, sample_world, offline_world,
  joined_match,
}

-- Lower-casing that changes nothing.
abbrev keep_case : Char → Char
keep_case c = c

abbrev match_env : List (String × String)
match_env =
    ("CS2_LAN", "1")
    ∷ ("CS2_STARTMAP", "de_nuke")
    ∷ ("CS2_MAXPLAYERS", "10")
    ∷ ("CS2_RCONPW", "pw")
    ∷ ("TV_PORT", "27020")
    ∷ []

abbrev match_payload : StartServerPayload
match_payload = payload no_faults joined_match sample_db match_env

build_match : build_server_start_payload no_faults (pos 1) sample_db ≡ built match_payload "lan"
unfolding build_server_start_payload joined_by_id assign_all env_assignments itoa add_int insert
build_match = refl

build_server_start_payload-env_example :
    (p : StartServerPayload) × (build_server_start_payload no_faults (pos 1) sample_db
      ≡ built p "lan")
    × ((key : String)
        → lookup key p.env
          ≡ or_else (last_value key (port_vars cs2.field_mappings match_server)) (
              or_else (last_value key (field_vars cs2.field_mappings match_server)) (
                or_else (last_value key (("CS2_STARTMAP", "de_nuke") ∷ [])) (
                  or_else
                    (last_value key (("CS2_STARTMAP", "de_dust2") ∷ []))
                    (lookup key (("CS2_LAN", "1") ∷ []))))))
unfolding joined_by_id
build_server_start_payload-env_example =
    build_server_start_payload-env no_faults (pos 1) sample_db joined_match (("CS2_LAN", "1") ∷ [])
      refl refl refl refl

container_name_example : container_name keep_case "my_cs2 server" ≡ "lanmaster-my-cs2-server"
unfolding container_name to_lower replace_separators
container_name_example = refl

abbrev request : CreateRequest
request = record {
  agent_id = pos 1;
  game_definition_id = pos 1;
  game_mode_id = none;
  name = "Second";
  port = pos 27025;
  max_players = pos 12;
  password = "";
  rcon_password = "pw";
  custom_config = ("A", "") ∷ ("B", "2") ∷ [];
}

create_server-IsCreated_example :
    ((create_server keep_case no_faults (some request) sample_world).1
      ≡ record { status = 201; body = created (pos 2) })
    × IsCreated keep_case request sample_world
        (create_server keep_case no_faults (some request) sample_world).0
unfolding container_name to_lower replace_separators
create_server-IsCreated_example =
    create_server-IsCreated keep_case no_faults request sample_world (λ j. refl) refl refl refl
      (λ key. refl)

-- For an agent that is not there.
abbrev stray : CreateRequest
stray = record request { agent_id = pos 9 }

create_server_refuses_example :
    let answer = create_server keep_case no_faults (some stray) sample_world in
    ((answer.1.status ≡ 400) ⊎ (answer.1.status ≡ 500))
    × (answer.0.db.game_servers ≡ sample_world.db.game_servers)
    × (answer.0.db.server_configs ≡ sample_world.db.server_configs)
    × (answer.0.sys ≡ sample_world.sys)
create_server_refuses_example =
    create_server_refuses keep_case no_faults stray sample_world (inr (inl refl))

abbrev change : UpdateRequest
change = record {
  port = pos 0;
  max_players = pos 20;
  password = "lan";
  rcon_password = "";
  custom_config = ("CS2_STARTMAP", "") ∷ [];
}

update_server-IsUpdated_example :
    ((update_server no_faults (some change) (pos 1) sample_world).1.status ≡ 200)
    × IsUpdated change
        (pos 1)
        sample_world
        (update_server no_faults (some change) (pos 1) sample_world).0
        match_server
update_server-IsUpdated_example =
    update_server-IsUpdated no_faults change (pos 1) sample_world match_server (λ j. refl) refl refl
      refl

start_handler-IsSent_example :
    IsSent
      (message (start_server match_payload))
      (pos 1)
      "starting"
      "start command sent"
      match_server
      new_chan
      0
      sample_world
      (start_handler no_faults (pos 1) sample_world)
unfolding lookup
start_handler-IsSent_example =
    start_handler-IsSent no_faults (pos 1) sample_world match_server "lan" lan_conn new_chan refl
      refl refl refl (omega arith) match_payload refl build_match

stop_handler-IsSent_example :
    IsSent
      (message (stop_server (record { server_id = pos 1; container_name = "lanmaster-match" })))
      (pos 1)
      "stopping"
      "stop command sent"
      match_server
      new_chan
      0
      sample_world
      (stop_handler no_faults (pos 1) sample_world)
unfolding lookup server_with_agent
stop_handler-IsSent_example =
    stop_handler-IsSent no_faults (pos 1) sample_world match_server "lan" lan_conn new_chan refl
      refl refl refl (omega arith) lan_agent refl refl refl refl

commands_not_connected_example :
    (start_handler no_faults (pos 1) offline_world
      ≡ done (offline_world, write_error 503 "agent not connected"))
    × (stop_handler no_faults (pos 1) offline_world
        ≡ done (offline_world, write_error 503 "agent not connected"))
    × (rcon_handler no_faults "1" (some "status") (pos 1) offline_world
        ≡ done (offline_world, write_error 503 "agent not connected"))
unfolding lookup server_with_agent joined_by_id
commands_not_connected_example =
    commands_not_connected no_faults (pos 1) offline_world refl match_server lan_agent joined_match
      match_payload "1" "status" refl refl refl build_match refl refl
