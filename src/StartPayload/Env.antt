-- ===== src/StartPayload/Env.antt =====
-- The environment of a start payload: which setting wins, and when building it panics.
use game_server_manager.Base.{
  ◌≡◌, ◌≢◌, refl, ap, ap₂, ◌∙◌, false, Option, none, some, [], ◌∷◌, ◌++◌, String, arith,
  if◌then◌else◌, str_eq, lookup, insert, lookup-insert, string_key, or_else, or_else_assoc,
}
use game_server_manager.Base.Int.{ℤ}
use game_server_manager.Protocol.{StartServerPayload}
use game_server_manager.Db.{Db, Faults}
use game_server_manager.StartPayload.{
  Env, Joined, mode_config, configs_of, field_vars, port_vars, assign_all, env_assignments, built,
  nil_map_panic, with_env, joined_by_id, build_server_start_payload, payload,
}

-- The value that a sequence of assignments leaves under a key, if it assigns to it.
unfoldable pub last_value : String → Env → Option String
last_value key [] = none
last_value key ((k, v) ∷ rest) =
    or_else (last_value key rest) (if str_eq k key then some v else none)

last_value-append :
    (key : String) (xs ys : Env)
    → last_value key (xs ++ ys) ≡ or_else (last_value key ys) (last_value key xs)
unfolding last_value
last_value-append key [] ys = ground arith
last_value-append key ((k, v) ∷ xs) ys =
    rw (last_value-append key xs ys) (
      or_else_assoc (last_value key ys) (last_value key xs) (if str_eq k key then some v else none))

-- Into a map that is not nil all assignments succeed, and the last one to a key wins.
assign_all-lookup :
    (xs m : Env)
    → (m' : Env) × (assign_all xs (some m) ≡ some (some m'))
      × ((key : String) → lookup key m' ≡ or_else (last_value key xs) (lookup key m))
unfolding assign_all last_value
assign_all-lookup [] m = (m, refl, λ key. refl)
assign_all-lookup ((k, v) ∷ xs) m =
    let (m', run, found) = assign_all-lookup xs (insert k v m) in
    (m', run, λ key. found key ∙ rw (lookup-insert k key v m) (ground arith))

-- For a game whose default environment is an object, building succeeds, and each variable of the
-- payload comes from the last of these that sets it: the default environment, the mode's config, the
-- server's config rows, the fields of the server under the game's names, the derived ports.
pub build_server_start_payload-env :
    (fault : Faults) (id : ℤ) (db : Db) (j : Joined) (defaults : Env)
    → fault 0 ≡ false
    → fault 2 ≡ false
    → joined_by_id id db ≡ some j
    → j.definition.default_env ≡ some defaults
    → (p : StartServerPayload) × (build_server_start_payload fault id db ≡ built p j.agent.name)
      × ((key : String)
          → lookup key p.env
            ≡ or_else (last_value key (port_vars j.definition.field_mappings j.server)) (
                or_else (last_value key (field_vars j.definition.field_mappings j.server)) (
                  or_else
                    (last_value key (configs_of j.server.id db))
                    (or_else (last_value key (mode_config j.mode)) (lookup key defaults)))))
unfolding build_server_start_payload env_assignments
build_server_start_payload-env fault id db j defaults f0 f2 joined env =
    let mode = mode_config j.mode in
    let configs = configs_of j.server.id db in
    let fields = field_vars j.definition.field_mappings j.server in
    let ports = port_vars j.definition.field_mappings j.server in
    let (m', run, found) = assign_all-lookup (mode ++ (configs ++ (fields ++ ports))) defaults in
    let assigned : env_assignments fault j db ≡ mode ++ (configs ++ (fields ++ ports)) =
      rw f2 refl in
    (
      payload fault j db m',
      rw (f0, joined) refl
          ∙ ap₂ (λ xs d. with_env fault j db (assign_all xs d)) assigned env
          ∙ ap (with_env fault j db) run,
      λ key.
          found key
          ∙ rw
              (
                last_value-append key mode (configs ++ (fields ++ ports)),
                last_value-append key configs (fields ++ ports),
                last_value-append key fields ports,
              )
              (regroup (last_value key ports) (last_value key fields) (last_value key configs)
                (last_value key mode) (lookup key defaults)),
    )
  where
    regroup :
        (a b c d e : Option String)
        → or_else (or_else (or_else (or_else a b) c) d) e
          ≡ or_else a (or_else b (or_else c (or_else d e)))
    regroup a b c d e = ground arith

-- A game that was registered with no default environment has the JSON value null there; starting
-- one of its servers panics as soon as anything else is to be set.
build_server_start_payload_nil_env :
    (fault : Faults) (id : ℤ) (db : Db) (j : Joined)
    → fault 0 ≡ false
    → joined_by_id id db ≡ some j
    → j.definition.default_env ≡ none
    → env_assignments fault j db ≢ []
    → build_server_start_payload fault id db ≡ nil_map_panic
unfolding build_server_start_payload assign_all
build_server_start_payload_nil_env fault id db j f0 joined env some_set =
    rw (f0, joined) refl
    ∙ ap (λ d. with_env fault j db (assign_all (env_assignments fault j db) d)) env
    ∙ panics_on (env_assignments fault j db) some_set
  where
    panics_on : (xs : Env) → xs ≢ [] → with_env fault j db (assign_all xs none) ≡ nil_map_panic
    panics_on [] ne = absurd (ne refl)
    panics_on ((k, v) ∷ xs) ne = refl
