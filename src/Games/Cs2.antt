-- ===== src/Games/Cs2.antt =====
-- The game that master/games_cs2.go registers.
use game_server_manager.Base.{some, List, [], ◌∷◌}
use game_server_manager.Base.Int.{pos}
use game_server_manager.Games.{GameDefinition, register_game}

abbrev pub cs2 : GameDefinition
cs2 = record {
  name = "Counter-Strike 2";
  slug = "cs2";
  docker_image = "cm2network/cs2";
  default_port = pos 27015;
  max_players = pos 10;
  data_path = "/home/steam/cs2-dedicated";
  default_env = some (
      ("CS2_IP", "0.0.0.0")
      ∷ ("CS2_LAN", "1")
      ∷ ("CS2_ADDITIONAL_ARGS", "-usercon")
      ∷ ("TV_ENABLE", "1")
      ∷ []);
  field_mappings = record {
    env_max_players = "CS2_MAXPLAYERS";
    env_password = "CS2_PW";
    env_rcon_password = "CS2_RCONPW";
    rcon_port = pos 27015;
    port_derived_vars = ("TV_PORT", pos 5) ∷ [];
  };
  custom_fields =
      record { key = "CS2_STARTMAP"; label = "Start Map"; placeholder = "de_dust2"; type = "text" }
      ∷ record {
        key = "CS2_MAPGROUP";
        label = "Map Group";
        placeholder = "mg_active";
        type = "text";
      }
      ∷ record {
        key = "CS2_ADDITIONAL_ARGS";
        label = "Extra Args";
        placeholder = "+sv_cheats 1";
        type = "text";
      }
      ∷ [];
  port_mappings =
      record {
        label = "game";
        container_port = pos 27015;
        protocol = "both";
        host_port_offset = pos 0;
        description = "CS2 game traffic";
      }
      ∷ record {
        label = "tv";
        container_port = pos 27020;
        protocol = "udp";
        host_port_offset = pos 5;
        description = "SourceTV";
      }
      ∷ [];
  modes =
      record {
        name = "Competitive";
        slug = "competitive";
        config = ("CS2_GAMEALIAS", "competitive") ∷ ("CS2_STARTMAP", "de_dust2") ∷ [];
      }
      ∷ record {
        name = "Deathmatch";
        slug = "deathmatch";
        config = ("CS2_GAMEALIAS", "deathmatch") ∷ ("CS2_STARTMAP", "de_mirage") ∷ [];
      }
      ∷ record {
        name = "Casual";
        slug = "casual";
        config = ("CS2_GAMEALIAS", "casual") ∷ ("CS2_STARTMAP", "de_dust2") ∷ [];
      }
      ∷ [];
}

-- registeredGames once init has run
unfoldable pub registered_games : List GameDefinition
unfolding register_game
registered_games = register_game cs2 []
