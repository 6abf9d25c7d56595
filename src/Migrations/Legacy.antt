-- ===== src/Migrations/Legacy.antt =====
-- The DO blocks of master/db.go runMigrations, which turn the columns of older databases into configs.
use game_server_manager.Base.{
  ◌≡◌, refl, ap, sym, ◌∙◌, ◌⊎◌, ◌++◌, inl, inr, Bool, true, false, ◌&&◌, Option, none, some, List,
  [], ◌∷◌, String, arith, if◌then◌else◌, str_eq, eq_iff, is_some, lookup, or_else, or_else-none,
  or_else_assoc, string_key, find, Bool-cases, Option-cases,
}
use game_server_manager.Base.Int.{ℤ, int_eq, int_eq_iff, int_key}
use game_server_manager.Db.{Db, ServerRow, ConfigRow, varchar}
use game_server_manager.Servers.{is_config, find_config}
use game_server_manager.Servers.CreateConfigs.{stored_config}
use game_server_manager.Migrations.{move_values, selected, insert_selected}

-- The config that one value of a column is worth.
abbrev pub given : Bool → ℤ → String → Option String → Option ConfigRow
given applies id key value = if applies then stored_config id key value else none

find-append_last :
    {A : Type 0} (p : A → Bool) (xs : List A) (x : A)
    → find p (xs ++ x ∷ []) ≡ or_else (find p xs) (if p x then some x else none)
find-append_last p [] x = refl
find-append_last p (y ∷ xs) x = ground (arith, find-append_last p xs x)

same_config :
    (id sid : ℤ) (key k : String) → (int_eq sid id && str_eq k key) ≡ true → (sid ≡ id) × (k ≡ key)
same_config id sid key k h = ground (arith, int_eq_iff sid id, eq_iff k key)

insert_selected-find :
    (id sid : ℤ) (key k : String) (value : Option String) (db : Db)
    → varchar 128 k ≡ true
    → find_config id key (insert_selected sid k value db)
      ≡ or_else (find_config id key db) (given (int_eq sid id && str_eq k key) id key value)
insert_selected-find id sid key k none db short = nothing (int_eq sid id && str_eq k key)
  where
    nothing :
        (b : Bool) → find_config id key db ≡ or_else (find_config id key db) (given b id key none)
    nothing true = or_else-none (find_config id key db)
    nothing false = or_else-none (find_config id key db)
insert_selected-find id sid key k (some v) db short = elim (Option-cases (find_config sid k db)) [
  | inl fresh ↦
      rw (fresh, short)
        (find-append_last (is_config id key) db.server_configs
            (record { game_server_id = sid; key = k; value = v })
          ∙ ap (or_else (find_config id key db))
              (mine (Bool-cases (int_eq sid id && str_eq k key))))
  | inr (c, taken) ↦ rw taken (kept c taken (Bool-cases (int_eq sid id && str_eq k key)))
]
  where
    mine :
        ((int_eq sid id && str_eq k key) ≡ true) ⊎ ((int_eq sid id && str_eq k key) ≡ false)
        → (if int_eq sid id && str_eq k key
            then some (record { game_server_id = sid; key = k; value = v })
            else none)
          ≡ given (int_eq sid id && str_eq k key) id key (some v)
    mine (inl e) =
        let (one, two) = same_config id sid key k e in
        rw e (
          ap (λ x. some (record { game_server_id = x; key = k; value = v })) one
          ∙ ap (λ x. some (record { game_server_id = id; key = x; value = v })) two)
    mine (inr e) = rw e refl

    kept :
        (c : ConfigRow)
        → find_config sid k db ≡ some c
        → ((int_eq sid id && str_eq k key) ≡ true) ⊎ ((int_eq sid id && str_eq k key) ≡ false)
        → find_config id key db
          ≡ or_else (find_config id key db) (given (int_eq sid id && str_eq k key) id key (some v))
    kept c taken (inl e) =
        let (one, two) = same_config id sid key k e in
        let here : find_config id key db ≡ some c =
          ap (λ x. find_config x key db) (sym one)
          ∙ ap (λ x. find_config sid x db) (sym two)
          ∙ taken in
        rw here refl
    kept c taken (inr e) = rw e (or_else-none (find_config id key db))

-- What a column stores for a server under a key, if the server is one of these.
abbrev pub has_row : ℤ → List ServerRow → Bool
has_row id servers = is_some (find (λ s. int_eq s.id id) servers)

pub move_values-find :
    (values : List (ℤ × String)) (k : String) (servers : List ServerRow) (db : Db) (id : ℤ)
    (key : String)
    → varchar 128 k ≡ true
    → find_config id key (move_values values k servers db)
      ≡ or_else
          (find_config id key db)
          (given (has_row id servers && str_eq k key) id key (selected (lookup id values)))
unfolding move_values
move_values-find values k [] db id key short = or_else-none (find_config id key db)
move_values-find values k (s ∷ servers) db id key short =
    move_values-find values k servers (insert_selected s.id k (selected (lookup s.id values)) db) id
      key short
    ∙ ap (λ o. or_else o (rest (has_row id servers)))
        (insert_selected-find id s.id key k (selected (lookup s.id values)) db short)
    ∙ or_else_assoc (find_config id key db)
        (given (int_eq s.id id && str_eq k key) id key (selected (lookup s.id values)))
        (rest (has_row id servers))
    ∙ ap (or_else (find_config id key db)) (first (Bool-cases (int_eq s.id id)))
  where
    rest : Bool → Option ConfigRow
    rest there = given (there && str_eq k key) id key (selected (lookup id values))

    twice : {A : Type 0} (o : Option A) → or_else o o ≡ o
    twice none = refl
    twice (some a) = refl

    first :
        (int_eq s.id id ≡ true) ⊎ (int_eq s.id id ≡ false)
        → or_else
            (given (int_eq s.id id && str_eq k key) id key (selected (lookup s.id values)))
            (rest (has_row id servers))
          ≡ rest (has_row id (s ∷ servers))
    first (inl e) = rw (e, (int_eq_iff s.id id).0 e) (again (has_row id servers))
      where
        again : (b : Bool) → or_else (rest true) (rest b) ≡ rest true
        again true = twice (rest true)
        again false = sym (or_else-none (rest true))
    first (inr e) = rw e refl
