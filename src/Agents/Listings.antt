-- ===== src/Agents/Listings.antt =====
-- Listing the agents and those that wait for approval (master/api_agents.go).
use game_server_manager.Base.{
  ℕ, Bool, true, false, not, Option, none, some, String, if◌then◌else◌, leb, str_eq, lookup,
  nat_key, string_key, is_some, map, keep,
}
use game_server_manager.Base.Sort.{sort}
use game_server_manager.Hub.{Hub}
use game_server_manager.Db.{AgentRow, Faults}
use game_server_manager.Api.{
  Response, write_json, write_error, Body, fields, AgentListing, PendingListing,
}
use game_server_manager.Api
use game_server_manager.Agents.{World}

abbrev pub listing : Hub → AgentRow → AgentListing
listing h a = record {
  id = a.id;
  name = a.name;
  status = a.status;
  last_seen_at = a.last_seen_at;
  host_info = a.host_info;
  created_at = a.created_at;
  connected = is_some (lookup a.name h.agents);
}

abbrev pub pending_listing : Hub → AgentRow → PendingListing
pending_listing h a = record {
  id = a.id;
  name = a.name;
  status = a.status;
  host_info = a.host_info;
  last_seen_at = a.last_seen_at;
  connected = is_some (lookup a.name h.pending_agents);
}

-- listAgents, without its wait for the hub's lock; the collation of ORDER BY name is the database's.
unfoldable pub list_agents : (String → String → Bool) → Faults → World → Response
list_agents name_le fault w =
    if fault 0
    then write_error 500 "failed to query agents"
    else write_json 200 (
        Api.agents (
          map (listing w.sys.hub) (
            sort (λ a b. name_le a.name b.name)
              (keep (λ a. not (str_eq a.status "pending")) w.db.agents))))

-- ORDER BY last_seen_at DESC, where a NULL comes first
abbrev pub seen_later : Option ℕ → Option ℕ → Bool
seen_later none _ = true
seen_later (some a) none = false
seen_later (some a) (some b) = leb b a

-- handlePendingAgents, GET
unfoldable pub list_pending : Faults → World → Response
list_pending fault w =
    if fault 0
    then write_error 500 "db error"
    else write_json 200 (
        Api.pending (
          map (pending_listing w.sys.hub) (
            sort (λ a b. seen_later a.last_seen_at b.last_seen_at)
              (keep (λ a. str_eq a.status "pending") w.db.agents))))
