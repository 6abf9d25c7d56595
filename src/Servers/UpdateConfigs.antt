-- ===== src/Servers/UpdateConfigs.antt =====
-- The config loop of updateServer (master/api_servers.go).
use mathlib.Core.Option
use game_server_manager.Base.{
  ℕ, suc, ◌≡◌, ◌⊎◌, refl, ap, ◌∙◌, sym, inl, inr, Bool, true, false, Option, none, some, List, [],
  ◌∷◌, String, arith, if◌then◌else◌, str_eq, eq_iff, is_some, Bool-cases, Option-cases, find-passes,
  or_else, choose,
}
use game_server_manager.Base.Int.{ℤ, int_eq, int_eq_iff}
use game_server_manager.Db.{Db, Faults, ConfigRow, exec, varchar, update_rows}
use game_server_manager.Db.Rows.{
  find-update_rows, find-append_none, find-append_some, find-keep_other, find-update_other,
  find-keep_self,
}
use game_server_manager.StartPayload.Env.{last_value}
use game_server_manager.Servers.{
  is_config, find_config, add_config, delete_config, upsert_config, update_configs,
}

-- One round of the config loop, without its error.
abbrev pub put_config : ℤ → String → String → Db → Db
put_config id k v db = if str_eq v "" then delete_config id k db else upsert_config id k v db

-- The row that a key of a server has after an entry of the request.
abbrev pub new_config : ℤ → String → String → Option ConfigRow
new_config id k v =
    if str_eq v "" then none else some (record { game_server_id = id; key = k; value = v })

module _ (id : ℤ) (key : String) (id' : ℤ) (key' : String) where
  -- Which other rows an entry for (id, key) can concern: none.
  is_config_apart :
      is_config id key (record { game_server_id = id'; key = key'; value = "" }) ≡ false
      → (c : ConfigRow) → is_config id' key' c ≡ true
      → is_config id key c ≡ false
  is_config_apart other c h = ground (
    arith,
    int_eq_iff c.game_server_id id',
    int_eq_iff c.game_server_id id,
    int_eq_iff id' id,
    eq_iff c.key key',
    eq_iff c.key key,
    eq_iff key' key,
  )

  pub find-put_config_other :
      (v : String) (db : Db)
      → is_config id key (record { game_server_id = id'; key = key'; value = "" }) ≡ false
      → find_config id' key' (put_config id key v db) ≡ find_config id' key' db
  find-put_config_other v db other = elim (Bool-cases (str_eq v "")) [
    | inl e ↦ rw e (
        find-keep_other (is_config id' key') (is_config id key) db.server_configs
          (is_config_apart other))
    | inr e ↦
        rw e
          (upserted (Bool-cases (varchar 128 key)) (Bool-cases (is_some (find_config id key db))))
  ]
    where
      upserted :
          (varchar 128 key ≡ true) ⊎ (varchar 128 key ≡ false)
          → (is_some (find_config id key db) ≡ true) ⊎ (is_some (find_config id key db) ≡ false)
          → find_config id' key' (upsert_config id key v db) ≡ find_config id' key' db
      upserted (inr long) _ = rw long refl
      upserted (inl short) (inl old) =
          rw (short, old)
            (find-update_other (is_config id' key') (is_config id key) (λ c. record c { value = v })
              db.server_configs (λ c. refl) (is_config_apart other))
      upserted (inl short) (inr new) =
          rw (short, new) (appended (Option-cases (find_config id' key' db)))
        where
          added : ConfigRow
          added = record { game_server_id = id; key = key; value = v }

          appended :
              (find_config id' key' db ≡ none)
                ⊎ ((c : ConfigRow) × (find_config id' key' db ≡ some c))
              → find_config id' key' (add_config id key v db) ≡ find_config id' key' db
          appended (inl e) =
              find-append_none (is_config id' key') db.server_configs added e
              ∙ ground (arith, is_config_apart other added, int_eq_iff id id, eq_iff key key)
          appended (inr (c, e)) =
              find-append_some (is_config id' key') db.server_configs (added ∷ []) c e ∙ sym e

find-put_config_self :
    (id : ℤ) (key v : String) (db : Db)
    → varchar 128 key ≡ true
    → find_config id key (put_config id key v db) ≡ new_config id key v
find-put_config_self id key v db short = elim (Bool-cases (str_eq v "")) [
  | inl e ↦ rw e (find-keep_self (is_config id key) db.server_configs)
  | inr e ↦ rw (e, short) (stored (Option-cases (find_config id key db)))
]
  where
    added : ConfigRow
    added = record { game_server_id = id; key = key; value = v }

    mine : is_config id key added ≡ true
    mine = ground (arith, int_eq_iff id id, eq_iff key key)

    stored :
        (find_config id key db ≡ none) ⊎ ((c : ConfigRow) × (find_config id key db ≡ some c))
        → find_config id key (
            if is_some (find_config id key db)
            then record db {
              server_configs =
                  update_rows (is_config id key) (λ c. record c { value = v }) db.server_configs;
            }
            else add_config id key v db)
          ≡ some added
    stored (inl e) =
        rw e (find-append_none (is_config id key) db.server_configs added e ∙ rw mine refl)
    stored (inr (c, e)) =
        let passes : is_config id key c ≡ true =
          find-passes (is_config id key) db.server_configs c e in
        rw e (
          find-update_rows (is_config id key) (is_config id key) (λ d. record d { value = v })
            db.server_configs (λ d. refl)
          ∙ rw (e, Option.map, passes)
              (ground (arith, int_eq_iff c.game_server_id id, eq_iff c.key key)))

-- What the entries of a request say of a key: nothing, or its last entry.
abbrev pub after_entries : ℤ → String → Option String → Option ConfigRow → Option ConfigRow
after_entries id key none old = old
after_entries id key (some v) old = new_config id key v

update_configs-cons :
    (fault : Faults) (i : ℕ) (id : ℤ) (k v : String) (entries : List (String × String)) (db : Db)
    → fault i ≡ false
    → update_configs fault i id ((k, v) ∷ entries) db
      ≡ update_configs fault (suc i) id entries (put_config id k v db)
unfolding update_configs
update_configs-cons fault i id k v entries db ok =
    ap (λ (b : Bool). update_configs fault (suc i) id entries (exec b db (put_config id k v db))) ok

-- With no failing statement, the config loop sets each key of the request to its value, removes a key
-- whose value is empty, and leaves every other key of the server alone.
pub update_configs-find :
    (fault : Faults) (i : ℕ) (id : ℤ) (entries : List (String × String)) (db : Db) (key : String)
    → ((j : ℕ) → fault j ≡ false)
    → varchar 128 key ≡ true
    → find_config id key (update_configs fault i id entries db)
      ≡ after_entries id key (last_value key entries) (find_config id key db)
unfolding last_value
update_configs-find fault i id [] db key ok short = unfold update_configs in refl
update_configs-find fault i id ((k, v) ∷ entries) db key ok short =
    let run = update_configs-find fault (suc i) id entries (put_config id k v db) key ok short in
    elim (Bool-cases (str_eq k key)) [
      | inl e ↦
          let same : k ≡ key = (eq_iff k key).0 e in
          let now : find_config id key (put_config id k v db) ≡ new_config id key v =
            rw same (find-put_config_self id key v db short) in
          rw (update_configs-cons fault i id k v entries db (ok i), e)
            (run ∙ rw now (last (last_value key entries)))
      | inr e ↦
          let now : find_config id key (put_config id k v db) ≡ find_config id key db =
            find-put_config_other id k id key v db
              (ground (arith, int_eq_iff id id, eq_iff k key, eq_iff key k)) in
          rw (update_configs-cons fault i id k v entries db (ok i), e)
            (run ∙ rw now (rest (last_value key entries)))
    ]
  where
    last :
        (o : Option String)
        → after_entries id key o (new_config id key v)
          ≡ after_entries id key (or_else o (some v)) (find_config id key db)
    last none = refl
    last (some x) = refl

    rest :
        (o : Option String)
        → after_entries id key o (find_config id key db)
          ≡ after_entries id key (or_else o none) (find_config id key db)
    rest none = refl
    rest (some x) = refl

-- Nothing of another server's config changes, whatever fails.
pub update_configs-other :
    (fault : Faults) (i : ℕ) (id : ℤ) (entries : List (String × String)) (db : Db) (id' : ℤ)
    (key : String)
    → int_eq id' id ≡ false
    → find_config id' key (update_configs fault i id entries db) ≡ find_config id' key db
unfolding update_configs
update_configs-other fault i id [] db id' key other = refl
update_configs-other fault i id ((k, v) ∷ entries) db id' key other =
    update_configs-other fault (suc i) id entries (exec (fault i) db (put_config id k v db)) id' key
      other
    ∙ choose (λ (x : Db). find_config id' key x ≡ find_config id' key db) (fault i) refl
        (find-put_config_other id k id' key v db (ground (arith, int_eq_iff id' id)))

pub update_configs-servers :
    (fault : Faults) (i : ℕ) (id : ℤ) (entries : List (String × String)) (db : Db)
    → (update_configs fault i id entries db).game_servers ≡ db.game_servers
unfolding update_configs
update_configs-servers fault i id [] db = refl
update_configs-servers fault i id ((k, v) ∷ entries) db =
    update_configs-servers fault (suc i) id entries (exec (fault i) db (put_config id k v db))
    ∙ elim (Bool-cases (fault i)) [
      | inl e ↦ rw e refl
      | inr e ↦ rw e (elim (Bool-cases (str_eq v "")) [
        | inl f ↦ rw f refl
        | inr f ↦
            rw f (upserts (Bool-cases (varchar 128 k)) (Bool-cases (is_some (find_config id k db))))
      ])
    ]
  where
    upserts :
        (varchar 128 k ≡ true) ⊎ (varchar 128 k ≡ false)
        → (is_some (find_config id k db) ≡ true) ⊎ (is_some (find_config id k db) ≡ false)
        → (upsert_config id k v db).game_servers ≡ db.game_servers
    upserts (inr f) _ = rw f refl
    upserts (inl f) (inl g) = rw (f, g) refl
    upserts (inl f) (inr g) = rw (f, g) refl
