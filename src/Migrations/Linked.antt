-- ===== src/Migrations/Linked.antt =====
-- The rows that refer to each other, under the statements of master/db.go runMigrations.
use game_server_manager.Base.{
  ℕ, suc, ◌≡◌, refl, ap, sym, inl, inr, Bool, true, Option, none, some, List, [], ◌∷◌, String,
  arith, is_some, lookup, find, All, Has, choose, string_key, subst,
}
use game_server_manager.Base.Int.{ℤ, int_eq, int_eq_iff, int_key}
use game_server_manager.Db.{Db, ServerRow}
use game_server_manager.Servers.Links.{Linked}
use game_server_manager.Servers.Linked.{insert_config-Ready}
use game_server_manager.Migrations.{
  Column, Table, Store, Statement, create_table, add_column, move_column, drop_column, execute,
  create, move, add_to, drop_from, move_values, insert_selected, selected, attempt, go_on,
  run_statements, has_column, holds_configs, column_values, references_exist,
}
use game_server_manager.Migrations.Moved.{insert_selected-SameRows}

abbrev IsThere : List ServerRow → ServerRow → Type 0
IsThere rows s = is_some (find (λ x. int_eq x.id s.id) rows) ≡ true

-- A listed row is found by its id.
Has-IsThere : (rows : List ServerRow) (s : ServerRow) → Has s rows → IsThere rows s
Has-IsThere [] s h = absurd h
Has-IsThere (x ∷ rows) s h = ground (arith, Has-IsThere rows s, int_eq_iff x.id s.id)

all_listed : {A : Type 0} (P : A → Type 0) (xs : List A) → ((x : A) → Has x xs → P x) → All P xs
all_listed P [] f = tt
all_listed P (x ∷ xs) f = (f x (inl refl), all_listed P xs (λ y h. f y (inr h)))

insert_selected-Linked :
    (id : ℤ) (k : String) (value : Option String) (db : Db)
    → is_some (find (λ x. int_eq x.id id) db.game_servers) ≡ true
    → Linked db
    → Linked (insert_selected id k value db)
insert_selected-Linked id k none db there h = h
insert_selected-Linked id k (some v) db there h = (insert_config-Ready id k v db (h, there)).0

move_values-Linked :
    (values : List (ℤ × String)) (k : String) (servers : List ServerRow) (db : Db)
    → All (IsThere db.game_servers) servers
    → Linked db
    → Linked (move_values values k servers db)
unfolding move_values
move_values-Linked values k [] db there h = h
move_values-Linked values k (s ∷ servers) db there h =
    let next = insert_selected s.id k (selected (lookup s.id values)) db in
    let same : next.game_servers ≡ db.game_servers =
      ap (λ x. x.game_servers)
        (insert_selected-SameRows s.id k (selected (lookup s.id values)) db) in
    move_values-Linked values k servers next
      (subst (λ rows. All (IsThere rows) servers) (sym same) there.1)
      (insert_selected-Linked s.id k (selected (lookup s.id values)) db there.0 h)

abbrev pub StoreLinked : Option Store → Type 0
StoreLinked none = Unit
StoreLinked (some s) = Linked s.db

module _ (s : Store) (h : Linked s.db) where
  altered_table :
      (table name : String) (c : Column) (o : Option Table) → StoreLinked (add_to table name c s o)
  altered_table table name c none = tt
  altered_table table name c (some t) =
      choose (λ (x : Store). Linked x.db) (is_some (lookup name t.columns)) h h

  dropped_column : (table name : String) (o : Option Table) → StoreLinked (drop_from table name s o)
  dropped_column table name none = tt
  dropped_column table name (some t) =
      choose (λ (x : Store). Linked x.db) (is_some (lookup name t.columns)) h h

  execute-Linked : (st : Statement) → StoreLinked (execute st s)
  unfolding execute create move
  execute-Linked (create_table name t) =
      choose StoreLinked (is_some (lookup name s.tables)) h
        (choose StoreLinked (references_exist t.columns s.tables) h tt)
  execute-Linked (add_column table name c) = altered_table table name c (lookup table s.tables)
  execute-Linked (move_column column key) =
      choose StoreLinked (has_column "game_servers" column s.tables)
        (choose StoreLinked (holds_configs s.tables)
          (move_values-Linked (column_values (lookup column s.legacy)) key s.db.game_servers s.db
            (all_listed (IsThere s.db.game_servers) s.db.game_servers
              (Has-IsThere s.db.game_servers))
            h)
          tt)
        h
  execute-Linked (drop_column table name) = dropped_column table name (lookup table s.tables)

-- However far the migrations get.
pub run_statements-Linked :
    (fault : ℕ → Bool) (i : ℕ) (sts : List Statement) (s : Store)
    → Linked s.db
    → Linked (run_statements fault i sts s).0.db
unfolding run_statements
run_statements-Linked fault i [] s h = h
run_statements-Linked fault i (st ∷ sts) s h =
    further (run_statements fault (suc i) sts) (run_statements-Linked fault (suc i) sts)
      (attempt (fault i) st s) (choose StoreLinked (fault i) tt (execute-Linked s h st))
  where
    further :
        (rest : Store → Store × Bool)
        → ((t : Store) → Linked t.db → Linked (rest t).0.db)
        → (o : Option Store) → StoreLinked o
        → Linked (go_on s o rest).0.db
    further rest kept none k = h
    further rest kept (some after) k = kept after k
