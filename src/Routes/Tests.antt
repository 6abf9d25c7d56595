-- ===== src/Routes/Tests.antt =====
-- Concrete requests.
use Prim.Native.String.{String}
use mathlib.Core.List.{Perm}
use game_server_manager.Base.{◌≡◌, refl, true, none, List, arith, map, All}
use game_server_manager.Base.Int.{pos, leb_ℤ}
use game_server_manager.Base.Decimal.{itoa}
use game_server_manager.Base.Sort.{IsSorted}
use game_server_manager.StartPayload.{Joined}
use game_server_manager.Api.{write_json, write_error}
use game_server_manager.Api
use game_server_manager.Servers.Listings.{list_servers}
use game_server_manager.Servers.Listed.{OwnRows, entry_of, list_servers-IsSorted}
use game_server_manager.Routes.{Request, Outside, server_action, serve}
use game_server_manager.Routes.Servers.{serve-server_path}
use game_server_manager.Servers.Links.{Linked}
use game_server_manager.Samples.{no_faults, sample_world}

abbrev outside : Outside
outside = record {
  fault = no_faults;
  rand = none;
  message_id = "m";
  time = "t";
  lower = λ c. c;
  name_le = λ a b. true;
}

abbrev request : (method path : String) → Request
request method path = record {
  method = method;
  path = path;
  create_body = none;
  update_body = none;
  rcon_body = none;
}

serve-server_path_example :
    serve outside (request "POST" "/api/servers/1/start") sample_world
    ≡ server_action outside (request "POST" "/api/servers/1/start") sample_world "start" (pos 1)
unfolding itoa
serve-server_path_example =
    serve-server_path outside (request "POST" "/api/servers/1/start") sample_world (pos 1) "start"
      (omega arith, omega arith) (refl, (refl, (refl, (refl, (refl, tt))))) refl

sample-Linked : Linked sample_world.db
sample-Linked = record { servers = ((refl, refl, refl), tt); configs = (refl, tt) }

list_servers-IsSorted_example :
    (js : List Joined) × (list_servers no_faults sample_world
      ≡ write_json 200 (Api.servers (map entry_of js)))
    × Perm (map (λ j. j.server) js) sample_world.db.game_servers
    × IsSorted leb_ℤ (map (λ j. j.server.id) js)
    × All (OwnRows sample_world.db) js
list_servers-IsSorted_example = list_servers-IsSorted no_faults sample_world refl sample-Linked
