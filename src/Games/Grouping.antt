-- ===== src/Games/Grouping.antt =====
-- The loop of handleGameDefinitions (master/api_games.go) against a description without maps.
use mathlib.Core.Option
use game_server_manager.Base.{
  ◌≡◌, refl, ap, ap₂, sym, ◌∙◌, fun_ext, inl, inr, Bool, true, false, ◌||◌, Option, none, some,
  List, [], ◌∷◌, ◌++◌, arith, if◌then◌else◌, map, find, lookup, lookup-insert, is_some,
  Option-cases, Bool-cases, append_assoc, append-nil,
}
use game_server_manager.Base.Int.{ℤ, int_eq, int_eq_iff, int_key}
use game_server_manager.Db.{GameDefinitionRow, GameModeRow}
use game_server_manager.Api.{GameListing, ModeOption}
use game_server_manager.Games.Definitions.{
  JoinedRow, game_listing, mode_option, append_mode, Grouped, add_definition, add_mode, add_row,
  add_rows, no_games, group_rows,
}

-- The ids of the rows in the order in which they appear first, without those already seen.
unfoldable pub first_ids : (ℤ → Bool) → List JoinedRow → List ℤ
first_ids seen [] = []
first_ids seen ((d, _) ∷ rows) =
    let later = first_ids (λ id. int_eq d.id id || seen id) rows in
    if seen d.id then later else d.id ∷ later

abbrev mode_options : Option GameModeRow → List ModeOption
mode_options none = []
mode_options (some m) = mode_option m ∷ []

-- The modes that the rows give for an id, in order.
unfoldable pub modes_of : ℤ → List JoinedRow → List ModeOption
modes_of id [] = []
modes_of id ((d, m) ∷ rows) =
    if int_eq d.id id then mode_options m ++ modes_of id rows else modes_of id rows

abbrev with_modes : List ModeOption → GameListing → GameListing
with_modes ms l = record l { modes = l.modes ++ ms }

-- The entry of an id: its first row's game with all its modes.
abbrev pub listing_of : ℤ → List JoinedRow → Option GameListing
listing_of id rows =
    Option.map (λ r. with_modes (modes_of id rows) (game_listing r.0))
      (find (λ r. int_eq r.0.id id) rows)

abbrev grown : ℤ → List JoinedRow → Option GameListing → Option GameListing
grown id rows none = listing_of id rows
grown id rows (some l) = some (with_modes (modes_of id rows) l)

abbrev or_new : GameDefinitionRow → Option GameListing → GameListing
or_new d none = game_listing d
or_new d (some l) = l

with_modes-nil : (l : GameListing) → with_modes [] l ≡ l
with_modes-nil l = ap (λ ms. record l { modes = ms }) (append-nil l.modes)

-- A lookup at an equal id.
lookup-same :
    (k id : ℤ) (defs : List (ℤ × GameListing)) → int_eq k id ≡ true → lookup id defs ≡ lookup k defs
lookup-same k id defs e = ap (λ (i : ℤ). lookup i defs) (sym ((int_eq_iff k id).0 e))

lookup-add_definition :
    (d : GameDefinitionRow) (g : Grouped) (id : ℤ)
    → lookup id (add_definition d g).defs
      ≡ (if int_eq d.id id then some (or_new d (lookup d.id g.defs)) else lookup id g.defs)
lookup-add_definition d g id = elim (Option-cases (lookup d.id g.defs)) [
  | inl e ↦ ground (arith, lookup-insert d.id id (game_listing d) g.defs, e)
  | inr (l, e) ↦ ground (arith, lookup-same d.id id g.defs, e)
]

lookup-add_mode :
    (k : ℤ) (m : Option GameModeRow) (g : Grouped) (id : ℤ)
    → lookup id (add_mode k m g).defs ≡ (
        if int_eq k id
        then Option.map (with_modes (mode_options m)) (lookup k g.defs)
        else lookup id g.defs)
lookup-add_mode k none g id = elim (Option-cases (lookup k g.defs)) [
  | inl e ↦ ground (arith, lookup-same k id g.defs, e)
  | inr (l, e) ↦ ground (arith, lookup-same k id g.defs, e, with_modes-nil l)
]
lookup-add_mode k (some m) g id = elim (Option-cases (lookup k g.defs)) [
  | inl e ↦ ground (arith, lookup-same k id g.defs, e)
  | inr (l, e) ↦ ground (arith, lookup-insert k id (append_mode m l) g.defs, e)
]

lookup-add_row :
    (d : GameDefinitionRow) (m : Option GameModeRow) (g : Grouped) (id : ℤ)
    → lookup id (add_row (d, m) g).defs ≡ (
        if int_eq d.id id
        then some (with_modes (mode_options m) (or_new d (lookup id g.defs)))
        else lookup id g.defs)
unfolding add_row
lookup-add_row d m g id =
    lookup-add_mode d.id m (add_definition d g) id
    ∙ rw
        (
          lookup-add_definition d g id,
          lookup-add_definition d g d.id,
          (int_eq_iff d.id d.id).1 refl,
        )
        (elim (Bool-cases (int_eq d.id id)) [
          | inl e ↦ rw (e, lookup-same d.id id g.defs e) refl
          | inr e ↦ rw e refl
        ])

grown-nil : (id : ℤ) (o : Option GameListing) → o ≡ grown id [] o
unfolding modes_of
grown-nil id none = refl
grown-nil id (some l) = ap some (sym (with_modes-nil l))

grown-cons :
    (d : GameDefinitionRow) (m : Option GameModeRow) (rows : List JoinedRow) (id : ℤ)
    (o : Option GameListing)
    → grown id rows (if int_eq d.id id then some (with_modes (mode_options m) (or_new d o)) else o)
      ≡ grown id ((d, m) ∷ rows) o
unfolding modes_of
grown-cons d m rows id none = elim (Bool-cases (int_eq d.id id)) [
  | inl e ↦ rw e refl
  | inr e ↦ rw e refl
]
grown-cons d m rows id (some l) = elim (Bool-cases (int_eq d.id id)) [
  | inl e ↦ rw e (
      ap (λ ms. some (record l { modes = ms }))
        (append_assoc l.modes (mode_options m) (modes_of id rows)))
  | inr e ↦ rw e refl
]

-- The map after the loop.
lookup-add_rows :
    (rows : List JoinedRow) (g : Grouped) (id : ℤ)
    → lookup id (add_rows rows g).defs ≡ grown id rows (lookup id g.defs)
unfolding add_rows
lookup-add_rows [] g id = grown-nil id (lookup id g.defs)
lookup-add_rows ((d, m) ∷ rows) g id =
    lookup-add_rows rows (add_row (d, m) g) id
    ∙ ap (grown id rows) (lookup-add_row d m g id)
    ∙ grown-cons d m rows id (lookup id g.defs)

abbrev seen_in : Grouped → ℤ → Bool
seen_in g id = is_some (lookup id g.defs)

seen-add_row :
    (d : GameDefinitionRow) (m : Option GameModeRow) (g : Grouped)
    → seen_in (add_row (d, m) g) ≡ (λ id. int_eq d.id id || seen_in g id)
seen-add_row d m g = fun_ext (λ id.
    ap is_some (lookup-add_row d m g id)
    ∙ (elim (Bool-cases (int_eq d.id id)) [ inl e ↦ rw e refl | inr e ↦ rw e refl ]))

order-add_mode : (k : ℤ) (m : Option GameModeRow) (g : Grouped) → (add_mode k m g).order ≡ g.order
order-add_mode k none g = refl
order-add_mode k (some m) g = elim (Option-cases (lookup k g.defs)) [
  | inl e ↦ ground (arith, e)
  | inr (l, e) ↦ ground (arith, e)
]

order-add_row :
    (d : GameDefinitionRow) (m : Option GameModeRow) (g : Grouped)
    → (add_row (d, m) g).order ≡ (if seen_in g d.id then g.order else g.order ++ d.id ∷ [])
unfolding add_row
order-add_row d m g =
    order-add_mode d.id m (add_definition d g)
    ∙ (elim (Bool-cases (seen_in g d.id)) [ inl e ↦ rw e refl | inr e ↦ rw e refl ])

order-add_rows :
    (rows : List JoinedRow) (g : Grouped)
    → (add_rows rows g).order ≡ g.order ++ first_ids (seen_in g) rows
unfolding add_rows first_ids
order-add_rows [] g = sym (append-nil g.order)
order-add_rows ((d, m) ∷ rows) g =
    order-add_rows rows (add_row (d, m) g)
    ∙ ap₂ (λ order seen. order ++ first_ids seen rows) (order-add_row d m g) (seen-add_row d m g)
    ∙ (elim (Bool-cases (seen_in g d.id)) [
      | inl e ↦ rw e refl
      | inr e ↦ rw e (append_assoc g.order (d.id ∷ []) _)
    ])

-- Whatever rows the database returns, in whatever order, the answer has one entry for each id of
-- theirs, in the order in which the ids appear first; an entry is the game of the id's first row with
-- the modes of all its rows, in order.
pub group_rows-listing_of :
    (rows : List JoinedRow)
    → group_rows rows ≡ map (λ id. listing_of id rows) (first_ids (λ _. false) rows)
unfolding group_rows lookup
group_rows-listing_of rows =
    ap₂ map (fun_ext (λ id. lookup-add_rows rows no_games id)) (order-add_rows rows no_games)
