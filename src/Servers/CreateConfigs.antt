-- ===== src/Servers/CreateConfigs.antt =====
-- The config loop of createServer (master/api_servers.go).
use game_server_manager.Base.{
  ℕ, suc, ◌≡◌, ◌⊎◌, refl, ap, ◌∙◌, inl, inr, Bool, true, false, not, ◌&&◌, ◌||◌, Option, none, some,
  List, [], ◌∷◌, String, arith, if◌then◌else◌, str_eq, eq_iff, is_some, Bool-cases, choose,
}
use game_server_manager.Base.Int.{ℤ, int_eq, int_eq_iff}
use game_server_manager.Db.{Db, Faults, ConfigRow, exec, varchar}
use game_server_manager.Db.Rows.{find-append_none, find-append_some, find-append_other}
use game_server_manager.Servers.{is_config, find_config, insert_config, insert_configs}

-- The first entry of a request that stores a value under a key.
unfoldable pub first_value : String → List (String × String) → Option String
first_value key [] = none
first_value key ((k, v) ∷ rest) =
    if str_eq k key && not (str_eq v "") then some v else first_value key rest

abbrev pub stored_config : ℤ → String → Option String → Option ConfigRow
stored_config id key none = none
stored_config id key (some v) = some (record { game_server_id = id; key = key; value = v })

abbrev IsDecided : Bool → Type 0
IsDecided b = (b ≡ true) ⊎ (b ≡ false)

pub insert_configs-servers :
    (fault : Faults) (i : ℕ) (id : ℤ) (entries : List (String × String)) (db : Db)
    → (insert_configs fault i id entries db).game_servers ≡ db.game_servers
unfolding insert_configs
insert_configs-servers fault i id [] db = refl
insert_configs-servers fault i id ((k, v) ∷ entries) db =
    insert_configs-servers fault (suc i) id entries
      (if str_eq v "" then db else exec (fault i) db (insert_config id k v db))
    ∙ kept (Bool-cases (str_eq v "")) (Bool-cases (fault i))
        (Bool-cases (is_some (find_config id k db) || not (varchar 128 k)))
  where
    kept :
        IsDecided (str_eq v "")
        → IsDecided (fault i)
        → IsDecided (is_some (find_config id k db) || not (varchar 128 k))
        → (if str_eq v "" then db else exec (fault i) db (insert_config id k v db)).game_servers
          ≡ db.game_servers
    kept (inl e) _ _ = rw e refl
    kept (inr e) (inl f) _ = rw (e, f) refl
    kept (inr e) (inr f) (inl g) = rw (e, f, g) refl
    kept (inr e) (inr f) (inr g) = rw (e, f, g) refl

-- Nothing of another server's config changes, whatever fails.
pub insert_configs-other :
    (fault : Faults) (i : ℕ) (id : ℤ) (entries : List (String × String)) (db : Db) (id' : ℤ)
    (key : String)
    → int_eq id' id ≡ false
    → find_config id' key (insert_configs fault i id entries db) ≡ find_config id' key db
unfolding insert_configs
insert_configs-other fault i id [] db id' key other = refl
insert_configs-other fault i id ((k, v) ∷ entries) db id' key other =
    insert_configs-other fault (suc i) id entries
      (if str_eq v "" then db else exec (fault i) db (insert_config id k v db)) id' key other
    ∙ choose Same (str_eq v "") refl (
        choose Same (fault i) refl (
          choose Same (is_some (find_config id k db) || not (varchar 128 k)) refl (
            find-append_other (is_config id' key) db.server_configs
              (record { game_server_id = id; key = k; value = v })
              (ground (arith, int_eq_iff id' id, int_eq_iff id id')))))
  where
    Same : Db → Type 0
    Same x = find_config id' key x ≡ find_config id' key db

find-insert_config :
    (id : ℤ) (key k v : String) (db : Db)
    → varchar 128 key ≡ true
    → find_config id key db ≡ none
    → find_config id key (insert_config id k v db)
      ≡ (if str_eq k key then stored_config id key (some v) else none)
find-insert_config id key k v db short fresh =
    elim (Bool-cases (is_some (find_config id k db) || not (varchar 128 k))) [
      | inl e ↦ elim (Bool-cases (str_eq k key)) [
        | inl same ↦
            let one : k ≡ key = (eq_iff k key).0 same in
            let untaken : (is_some (find_config id k db) || not (varchar 128 k)) ≡ false =
              rw (one, fresh, short) refl in
            absurd (cc (e, untaken))
        | inr other ↦ rw (e, other) fresh
      ]
      | inr e ↦ rw e (
          find-append_none (is_config id key) db.server_configs
            (record { game_server_id = id; key = k; value = v }) fresh
          ∙ ground (arith, int_eq_iff id id, eq_iff k key))
    ]

insert_configs-cons :
    (fault : Faults) (i : ℕ) (id : ℤ) (k v : String) (entries : List (String × String)) (db : Db)
    → fault i ≡ false
    → insert_configs fault i id ((k, v) ∷ entries) db
      ≡ insert_configs fault
          (suc i)
          id
          entries
          (if str_eq v "" then db else insert_config id k v db)
unfolding insert_configs
insert_configs-cons fault i id k v entries db ok =
    ap
      (λ (b : Bool).
        insert_configs fault (suc i) id entries
          (if str_eq v "" then db else exec b db (insert_config id k v db)))
      ok

insert_configs_old :
    (fault : Faults) (i : ℕ) (id : ℤ) (entries : List (String × String)) (db : Db) (key : String)
    (c : ConfigRow)
    → ((j : ℕ) → fault j ≡ false)
    → find_config id key db ≡ some c
    → find_config id key (insert_configs fault i id entries db) ≡ some c
insert_configs_old fault i id [] db key c ok there = unfold insert_configs in there
insert_configs_old fault i id ((k, v) ∷ entries) db key c ok there =
    rw (insert_configs-cons fault i id k v entries db (ok i)) (
      insert_configs_old fault (suc i) id entries
        (if str_eq v "" then db else insert_config id k v db) key c ok
        (still (Bool-cases (str_eq v ""))
          (Bool-cases (is_some (find_config id k db) || not (varchar 128 k)))))
  where
    still :
        IsDecided (str_eq v "")
        → IsDecided (is_some (find_config id k db) || not (varchar 128 k))
        → find_config id key (if str_eq v "" then db else insert_config id k v db) ≡ some c
    still (inl e) _ = rw e there
    still (inr e) (inl g) = rw (e, g) there
    still (inr e) (inr g) =
        rw (e, g) (find-append_some (is_config id key) db.server_configs _ c there)

-- With no failing statement, the config loop of a new server stores for each key the request's first
-- value that is not empty, and nothing for a key that has none.
pub insert_configs-find :
    (fault : Faults) (i : ℕ) (id : ℤ) (entries : List (String × String)) (db : Db) (key : String)
    → ((j : ℕ) → fault j ≡ false)
    → varchar 128 key ≡ true
    → find_config id key db ≡ none
    → find_config id key (insert_configs fault i id entries db)
      ≡ stored_config id key (first_value key entries)
unfolding first_value
insert_configs-find fault i id [] db key ok short fresh = unfold insert_configs in fresh
insert_configs-find fault i id ((k, v) ∷ entries) db key ok short fresh =
    rw (insert_configs-cons fault i id k v entries db (ok i)) (
      round (λ db' fresh'. insert_configs-find fault (suc i) id entries db' key ok short fresh')
        (Bool-cases (str_eq v "")) (Bool-cases (str_eq k key)))
  where
    round :
        ((db' : Db)
          → find_config id key db' ≡ none
          → find_config id key (insert_configs fault (suc i) id entries db')
            ≡ stored_config id key (first_value key entries))
        → IsDecided (str_eq v "")
        → IsDecided (str_eq k key)
        → find_config id key (
            insert_configs fault
              (suc i)
              id
              entries
              (if str_eq v "" then db else insert_config id k v db))
          ≡ stored_config id key
              (if str_eq k key && not (str_eq v "") then some v else first_value key entries)
    round ih (inl e) (inl f) = rw (e, f) (ih db fresh)
    round ih (inl e) (inr f) = rw (e, f) (ih db fresh)
    round ih (inr e) (inl f) =
        rw (e, f)
          (insert_configs_old fault (suc i) id entries (insert_config id k v db) key
            (record { game_server_id = id; key = key; value = v }) ok
            (find-insert_config id key k v db short fresh ∙ rw f refl))
    round ih (inr e) (inr f) =
        rw (e, f)
          (ih (insert_config id k v db) (find-insert_config id key k v db short fresh ∙ rw f refl))
