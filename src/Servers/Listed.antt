-- ===== src/Servers/Listed.antt =====
-- The order and the rows of GET /api/servers (master/api_servers.go listServers).
use mathlib.Core.List.{Perm}
use mathlib.Core.List.Perm
use mathlib.Core.Option
use game_server_manager.Base.{
  ◌≡◌, ◌⊎◌, refl, ap, subst, inl, inr, true, false, Option, none, some, is_some, List, [], ◌∷◌, map,
  All, arith, Option-cases, not, str_eq, find, String, ◌∙◌,
}
use game_server_manager.Base.Int.{ℤ, int_eq, leb_ℤ}
use game_server_manager.Base.Sort.{sort, IsSorted, sort-Perm, sort-IsSorted, sort-All}
use game_server_manager.Db.{
  Db, Faults, ServerRow, AgentRow, GameDefinitionRow, GameModeRow, definition_by_id, agent_by_id,
}
use game_server_manager.StartPayload.{Joined, join_with, mode_of}
use game_server_manager.Api.{write_json, ServerListing}
use game_server_manager.Api
use game_server_manager.Agents.{World}
use game_server_manager.Servers.Links.{ServerLinked, Linked}
use game_server_manager.Servers.Listings.{
  keep_joined, join_all, by_id, server_listing, list_servers,
}

by_id-total : (a b : Joined) → by_id a b ≡ false → by_id b a ≡ true
by_id-total a b h = ground arith

by_id-transitive : (a b c : Joined) → by_id a b ≡ true → by_id b c ≡ true → by_id a c ≡ true
by_id-transitive a b c h k = ground arith

ids-IsSorted : (js : List Joined) → IsSorted by_id js → IsSorted leb_ℤ (map (λ j. j.server.id) js)
ids-IsSorted [] h = tt
ids-IsSorted (j ∷ js) h = (mapped js h.0, ids-IsSorted js h.1)
  where
    mapped :
        (ks : List Joined)
        → All (λ k. by_id j k ≡ true) ks
        → All (λ n. leb_ℤ j.server.id n ≡ true) (map (λ k. k.server.id) ks)
    mapped [] h = tt
    mapped (k ∷ ks) h = (h.0, mapped ks h.1)

-- Every row joins, if its agent and its game are there.
join_all-servers :
    (db : Db) (xs : List ServerRow)
    → All (ServerLinked db) xs
    → map (λ j. j.server) (join_all db xs) ≡ xs
unfolding join_all
join_all-servers db [] h = refl
join_all-servers db (s ∷ xs) h =
    joined (definition_by_id s.game_definition_id db) (agent_by_id s.agent_id db) h.0.1 h.0.0
      (join_all-servers db xs h.1)
  where
    joined :
        (d : Option GameDefinitionRow) (a : Option AgentRow)
        → is_some d ≡ true
        → is_some a ≡ true
        → map (λ j. j.server) (join_all db xs) ≡ xs
        → map (λ j. j.server) (keep_joined (join_with s db d a) (join_all db xs)) ≡ s ∷ xs
    joined none a k l e = absurd (cc)
    joined (some d) none k l e = absurd (cc)
    joined (some d) (some a) k l e = ap (◌∷◌ s) e

-- The agent, the game and the mode of an entry are those that its server refers to.
abbrev pub OwnRows : Db → Joined → Type 0
OwnRows db j =
    (agent_by_id j.server.agent_id db ≡ some j.agent)
    × (definition_by_id j.server.game_definition_id db ≡ some j.definition)
    × (j.mode ≡ elim j.server.game_mode_id [
      | none ↦ none
      | some id ↦ find (λ m. int_eq m.id id) db.game_modes
    ])

-- What the list tells of a server: everything but its passwords, of which it says whether there is
-- one, and the names of its game, its mode and its agent.
abbrev pub entry_of : Joined → ServerListing
entry_of j = record {
  id = j.server.id;
  name = j.server.name;
  status = j.server.status;
  port = j.server.port;
  max_players = j.server.max_players;
  has_password = elim j.server.password [ none ↦ false | some s ↦ not (str_eq s "") ];
  container_id = j.server.container_id;
  container_name = j.server.container_name;
  created_at = j.server.created_at;
  updated_at = j.server.updated_at;
  game_name = j.definition.name;
  game_slug = j.definition.slug;
  mode_name = Option.map (λ m. m.name) j.mode;
  mode_slug = Option.map (λ m. m.slug) j.mode;
  agent_name = j.agent.name;
}

listing-entry_of : (js : List Joined) → map server_listing js ≡ map entry_of js
listing-entry_of [] = refl
listing-entry_of (j ∷ js) =
    ap (λ e. e ∷ map server_listing js) (same j.server.password j.mode)
    ∙ ap (◌∷◌ (entry_of j)) (listing-entry_of js)
  where
    same :
        (password : Option String) (mode : Option GameModeRow)
        → server_listing
            (record j { server = record j.server { password = password }; mode = mode })
          ≡ entry_of (record j { server = record j.server { password = password }; mode = mode })
    same none none = refl
    same none (some m) = refl
    same (some s) none = refl
    same (some s) (some m) = refl

own_mode :
    (db : Db) (id : Option ℤ)
    → mode_of id db ≡ elim id [ none ↦ none | some n ↦ find (λ m. int_eq m.id n) db.game_modes ]
own_mode db none = refl
own_mode db (some n) = refl

join_all-OwnRows : (db : Db) (xs : List ServerRow) → All (OwnRows db) (join_all db xs)
unfolding join_all
join_all-OwnRows db [] = tt
join_all-OwnRows db (s ∷ xs) =
    found (Option-cases (definition_by_id s.game_definition_id db))
      (Option-cases (agent_by_id s.agent_id db)) (join_all-OwnRows db xs)
  where
    found :
        (definition_by_id s.game_definition_id db ≡ none)
          ⊎ ((d : GameDefinitionRow) × (definition_by_id s.game_definition_id db ≡ some d))
        → (agent_by_id s.agent_id db ≡ none)
          ⊎ ((a : AgentRow) × (agent_by_id s.agent_id db ≡ some a))
        → All (OwnRows db) (join_all db xs)
        → All (OwnRows db) (
            keep_joined
              (join_with s db
                (definition_by_id s.game_definition_id db)
                (agent_by_id s.agent_id db))
              (join_all db xs))
    found (inl e) _ rest = rw e rest
    found (inr (d, e)) (inl f) rest = rw (e, f) rest
    found (inr (d, e)) (inr (a, f)) rest = rw (e, f) ((f, e, own_mode db s.game_mode_id), rest)

-- Unless its query fails, and if each server's agent, game and mode are there, the list of the
-- servers has exactly one entry for each row of game_servers, with the names of that server's agent,
-- game and mode, and its ids ascend.
pub list_servers-IsSorted :
    (fault : Faults) (w : World)
    → fault 0 ≡ false
    → Linked w.db
    → (js : List Joined) × (list_servers fault w ≡ write_json 200 (Api.servers (map entry_of js)))
      × Perm (map (λ j. j.server) js) w.db.game_servers
      × IsSorted leb_ℤ (map (λ j. j.server.id) js)
      × All (OwnRows w.db) js
unfolding list_servers
list_servers-IsSorted fault w h linked =
    let rows = join_all w.db w.db.game_servers in
    (
      sort by_id rows,
      rw (h, listing-entry_of (sort by_id rows)) refl,
      subst (Perm (map (λ j. j.server) (sort by_id rows)))
          (join_all-servers w.db w.db.game_servers linked.servers)
          (Perm.map (λ j. j.server) (sort-Perm by_id rows)),
      ids-IsSorted (sort by_id rows) (sort-IsSorted by_id by_id-total by_id-transitive rows),
      sort-All (OwnRows w.db) by_id rows (join_all-OwnRows w.db w.db.game_servers),
    )
