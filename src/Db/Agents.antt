-- ===== src/Db/Agents.antt =====
-- The agent helpers of master/db.go.
use Prim.Native.String
use game_server_manager.Base.{
  ℕ, suc, ◌/◌, ◌%◌, Bool, false, Option, none, some, List, [], ◌∷◌, ◌++◌, String, if◌then◌else◌,
  nat_eq, str_eq, is_some,
}
use game_server_manager.Base.Int.{ℤ, pos, int_eq}
use game_server_manager.Protocol.{HostInfo}
use game_server_manager.Db.{
  Db, AgentRow, exec, varchar, agent_by_name, update_agents, DbResult, row, no_rows, db_error,
  query_row,
}

abbrev pub touch_pending : String → HostInfo → Db → Db
touch_pending name info db =
    update_agents (λ a. str_eq a.name name)
      (λ a. record a {
        host_info = some info;
        last_seen_at = some db.now;
        status = if str_eq a.status "pending" then "pending" else a.status;
      })
      (record db { agents_seq = suc db.agents_seq })

abbrev pub insert_pending : String → HostInfo → Db → Db
insert_pending name info db = record db {
  agents_seq = suc db.agents_seq;
  agents =
      db.agents
      ++ record {
        id = pos db.agents_seq;
        name = name;
        token = "";
        last_seen_at = some db.now;
        status = "pending";
        host_info = some info;
        created_at = db.now;
      }
        ∷ [];
}

-- upsertPendingAgent: INSERT … ON CONFLICT (name) DO UPDATE, where a conflict uses up a number of the
-- sequence too. `none` is an error.
unfoldable pub upsert_pending_agent : Bool → String → HostInfo → Db → Option Db
upsert_pending_agent failing name info db =
    if failing
    then none
    else if is_some (agent_by_name name db)
    then some (touch_pending name info db)
    else if varchar 64 name
    then some (insert_pending name info db)
    else none

abbrev hex_digit : ℕ → String
hex_digit d =
    if nat_eq d 0
    then "0"
    else if nat_eq d 1
    then "1"
    else if nat_eq d 2
    then "2"
    else if nat_eq d 3
    then "3"
    else if nat_eq d 4
    then "4"
    else if nat_eq d 5
    then "5"
    else if nat_eq d 6
    then "6"
    else if nat_eq d 7
    then "7"
    else if nat_eq d 8
    then "8"
    else if nat_eq d 9
    then "9"
    else if nat_eq d 10
    then "a"
    else if nat_eq d 11
    then "b"
    else if nat_eq d 12
    then "c"
    else if nat_eq d 13
    then "d"
    else if nat_eq d 14
    then "e"
    else "f"

-- hex.EncodeToString
unfoldable pub hex_encode : List ℕ → String
hex_encode [] = ""
hex_encode (b ∷ bs) =
    String.◌++◌ (hex_digit (b / 16)) (String.◌++◌ (hex_digit (b % 16)) (hex_encode bs))

-- approveAgent: rand.Read gives 32 bytes or fails. The update may match no row: that is no error.
unfoldable pub approve_agent : (rand : Option (List ℕ)) → Bool → ℤ → Db → Option (String × Db)
approve_agent none failing id db = none
approve_agent (some bytes) failing id db =
    if failing
    then none
    else some (
      hex_encode bytes,
      update_agents (λ a. int_eq a.id id)
          (λ a. record a { token = hex_encode bytes; status = "approved" }) db,
    )

abbrev token_matches : String → DbResult AgentRow → Bool
token_matches token (row a) = str_eq a.token token
token_matches token no_rows = false
token_matches token db_error = false

-- validateAgentToken, which nothing calls.
unfoldable pub validate_agent_token : Bool → String → String → Db → Bool
validate_agent_token failing name token db =
    token_matches token (query_row failing (agent_by_name name db))

-- updateAgentStatus
unfoldable pub update_agent_status : Bool → String → String → HostInfo → Db → Db
update_agent_status failing name status info db = exec failing db (
    update_agents (λ a. str_eq a.name name)
      (λ a. record a { status = status; last_seen_at = some db.now; host_info = some info }) db)

-- updateAgentLastSeen
unfoldable pub update_agent_last_seen : Bool → String → Db → Db
update_agent_last_seen failing name db =
    exec failing db
      (update_agents (λ a. str_eq a.name name) (λ a. record a { last_seen_at = some db.now }) db)
