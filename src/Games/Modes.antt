-- ===== src/Games/Modes.antt =====
-- The modes of a seeded game (master/gamedefs.go seedGames).
use mathlib.Core.Option
use game_server_manager.Base.{
  ℕ, suc, ◌≡◌, refl, ap, subst, ◌∙◌, inl, inr, Bool, true, false, ◌&&◌, Option, none, some, List,
  [], ◌∷◌, ◌++◌, String, arith, if◌then◌else◌, str_eq, string_key, eq_iff, find, or_else, All,
  Bool-cases, Option-cases, find-passes, choose,
}
use game_server_manager.Base.Int.{ℤ, int_eq, int_eq_iff}
use game_server_manager.Db.{Db, GameModeRow, update_rows, exec}
use game_server_manager.Db.Rows.{
  find-update_rows, find-append_none, find-append_other, find-update_other,
}
use game_server_manager.Games.{
  GameModeDef, is_mode, find_mode, mode_allowed, mode_row, upsert_mode, upsert_modes,
}

-- The config of the last mode that has a slug.
unfoldable pub last_config : String → List GameModeDef → Option (List (String × String))
last_config slug [] = none
last_config slug (m ∷ ms) =
    or_else (last_config slug ms) (if str_eq m.slug slug then some m.config else none)

abbrev pub config_of : ℤ → String → Db → Option (List (String × String))
config_of id slug db = Option.map (λ m. m.config) (find_mode id slug db)

-- One mode.
config-upsert_self :
    (id : ℤ) (m : GameModeDef) (db : Db)
    → mode_allowed m ≡ true
    → config_of id m.slug (upsert_mode id m db) ≡ some m.config
config-upsert_self id m db short = elim (Option-cases (find_mode id m.slug db)) [
  | inl e ↦
      let mine : is_mode id m.slug (mode_row db.modes_seq id m) ≡ true =
        ground (arith, int_eq_iff id id, eq_iff m.slug m.slug) in
      let added : find (is_mode id m.slug) (db.game_modes ++ mode_row db.modes_seq id m ∷ [])
          ≡ some (mode_row db.modes_seq id m) =
        find-append_none (is_mode id m.slug) db.game_modes (mode_row db.modes_seq id m) e
        ∙ rw mine refl in
      rw (short, e) (ap (Option.map (λ x. x.config)) added)
  | inr (x, e) ↦
      let passes : is_mode id m.slug x ≡ true = find-passes (is_mode id m.slug) db.game_modes x e in
      let updated : find (is_mode id m.slug)
            (update_rows (is_mode id m.slug) (λ y. record y { config = m.config }) db.game_modes)
          ≡ some (record x { config = m.config }) =
        find-update_rows (is_mode id m.slug) (is_mode id m.slug)
          (λ y. record y { config = m.config }) db.game_modes (λ y. refl)
        ∙ rw (e, Option.map, passes) refl in
      rw (short, e) (ap (Option.map (λ y. y.config)) updated)
]

upsert_mode-other :
    (id : ℤ) (m : GameModeDef) (id' : ℤ) (slug : String) (db : Db)
    → (int_eq id id' && str_eq m.slug slug) ≡ false
    → find_mode id' slug (upsert_mode id m db) ≡ find_mode id' slug db
upsert_mode-other id m id' slug db other = elim (Bool-cases (mode_allowed m)) [
  | inr long ↦ rw long refl
  | inl short ↦ elim (Option-cases (find_mode id m.slug db)) [
    | inl e ↦
        rw (short, e)
          (find-append_other (is_mode id' slug) db.game_modes (mode_row db.modes_seq id m) other)
    | inr (x, e) ↦
        rw (short, e)
          (find-update_other (is_mode id' slug) (is_mode id m.slug)
            (λ y. record y { config = m.config }) db.game_modes (λ y. refl) apart)
  ]
]
  where
    apart : (y : GameModeRow) → is_mode id' slug y ≡ true → is_mode id m.slug y ≡ false
    apart y h = ground (
      arith,
      int_eq_iff y.game_definition_id id',
      int_eq_iff y.game_definition_id id,
      int_eq_iff id id',
      eq_iff y.slug slug,
      eq_iff y.slug m.slug,
      eq_iff m.slug slug,
    )

config-upsert_mode :
    (id : ℤ) (m : GameModeDef) (slug : String) (db : Db)
    → mode_allowed m ≡ true
    → config_of id slug (upsert_mode id m db)
      ≡ (if str_eq m.slug slug then some m.config else config_of id slug db)
config-upsert_mode id m slug db short = elim (Bool-cases (str_eq m.slug slug)) [
  | inl e ↦ rw e (
      subst (λ (s : String). config_of id s (upsert_mode id m db) ≡ some m.config)
        ((eq_iff m.slug slug).0 e) (config-upsert_self id m db short))
  | inr e ↦
      rw e (ap (Option.map (λ y. y.config)) (upsert_mode-other id m id slug db (ground (arith, e))))
]

or_else_if :
    (later : Option (List (String × String))) (b : Bool) (config : List (String × String))
    (old : Option (List (String × String)))
    → or_else later (if b then some config else old)
      ≡ or_else (or_else later (if b then some config else none)) old
or_else_if later b config old = ground arith

pub config-upsert_modes :
    (fault : ℕ → Bool) (i : ℕ) (id : ℤ) (ms : List GameModeDef) (slug : String) (db : Db)
    → ((j : ℕ) → fault j ≡ false)
    → All (λ m. mode_allowed m ≡ true) ms
    → config_of id slug (upsert_modes fault i id ms db)
      ≡ or_else (last_config slug ms) (config_of id slug db)
unfolding upsert_modes last_config
config-upsert_modes fault i id [] slug db ok allowed = refl
config-upsert_modes fault i id (m ∷ ms) slug db ok (short, allowed) =
    ap
      (λ failing.
        config_of id slug
          (upsert_modes fault (suc i) id ms (exec failing db (upsert_mode id m db))))
      (ok i)
    ∙ config-upsert_modes fault (suc i) id ms slug (upsert_mode id m db) ok allowed
    ∙ ap (or_else (last_config slug ms)) (config-upsert_mode id m slug db short)
    ∙ or_else_if (last_config slug ms) (str_eq m.slug slug) m.config (config_of id slug db)

-- The modes of the other games stay, whatever fails.
pub upsert_modes-other :
    (fault : ℕ → Bool) (i : ℕ) (id : ℤ) (ms : List GameModeDef) (id' : ℤ) (slug : String) (db : Db)
    → int_eq id id' ≡ false
    → find_mode id' slug (upsert_modes fault i id ms db) ≡ find_mode id' slug db
unfolding upsert_modes
upsert_modes-other fault i id [] id' slug db other = refl
upsert_modes-other fault i id (m ∷ ms) id' slug db other =
    upsert_modes-other fault (suc i) id ms id' slug (exec (fault i) db (upsert_mode id m db)) other
    ∙ choose (λ (x : Db). find_mode id' slug x ≡ find_mode id' slug db) (fault i) refl
        (upsert_mode-other id m id' slug db (ground (arith, other)))

-- The modes loop leaves the other tables alone.
pub upsert_modes-tables :
    (fault : ℕ → Bool) (i : ℕ) (id : ℤ) (ms : List GameModeDef) (db : Db)
    → ((upsert_modes fault i id ms db).game_definitions ≡ db.game_definitions)
      × ((upsert_modes fault i id ms db).game_port_mappings ≡ db.game_port_mappings)
      × ((upsert_modes fault i id ms db).game_servers ≡ db.game_servers)
unfolding upsert_modes
upsert_modes-tables fault i id [] db = (refl, refl, refl)
upsert_modes-tables fault i id (m ∷ ms) db =
    ground
      (arith, upsert_modes-tables fault (suc i) id ms (exec (fault i) db (upsert_mode id m db)))
