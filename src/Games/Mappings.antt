-- ===== src/Games/Mappings.antt =====
-- The port mappings of a seeded game (master/gamedefs.go seedGames).
use game_server_manager.Base.{
  ℕ, suc, ◌≡◌, refl, ap, sym, ◌∙◌, Bool, true, false, not, List, [], ◌∷◌, ◌++◌, arith, string_key,
  keep, map, All, append-nil, append_assoc,
}
use game_server_manager.Base.Int.{ℤ, int_eq, int_eq_iff}
use game_server_manager.Db.{Db, PortMappingRow}
use game_server_manager.Games.{PortMappingDef, mapping_allowed, mapping_row, insert_mappings}

abbrev pub is_mapping_of : ℤ → PortMappingRow → Bool
is_mapping_of id m = int_eq m.game_definition_id id

-- The port mappings of a game, and those of the others.
abbrev pub own_mappings : ℤ → Db → List PortMappingRow
own_mappings id db = keep (is_mapping_of id) db.game_port_mappings

abbrev pub other_mappings : ℤ → Db → List PortMappingRow
other_mappings id db = keep (λ m. not (is_mapping_of id m)) db.game_port_mappings

-- The mappings loop: it appends the rows of the game.
pub insert_mappings-rows :
    (fault : ℕ → Bool) (i : ℕ) (id : ℤ) (pms : List PortMappingDef) (db : Db)
    → ((j : ℕ) → fault j ≡ false)
    → All (λ pm. mapping_allowed pm ≡ true) pms
    → insert_mappings fault i id pms db
      ≡ record db { game_port_mappings = db.game_port_mappings ++ map (mapping_row id) pms }
unfolding insert_mappings
insert_mappings-rows fault i id [] db ok allowed =
    ap (λ rows. record db { game_port_mappings = rows }) (sym (append-nil db.game_port_mappings))
insert_mappings-rows fault i id (pm ∷ pms) db ok (short, allowed) =
    rw (ok i, short)
      (insert_mappings-rows fault (suc i) id pms
          (record db { game_port_mappings = db.game_port_mappings ++ mapping_row id pm ∷ [] }) ok
          allowed
        ∙ ap (λ rows. record db { game_port_mappings = rows })
            (append_assoc db.game_port_mappings (mapping_row id pm ∷ [])
              (map (mapping_row id) pms)))

pub keep_own :
    (id : ℤ) (rows : List PortMappingRow) (pms : List PortMappingDef)
    → keep
        (is_mapping_of id)
        (keep (λ m. not (is_mapping_of id m)) rows ++ map (mapping_row id) pms)
      ≡ map (mapping_row id) pms
keep_own id [] [] = refl
keep_own id [] (pm ∷ pms) =
    rw ((int_eq_iff id id).1 refl) (ap (◌∷◌ (mapping_row id pm)) (keep_own id [] pms))
keep_own id (m ∷ rows) pms = ground (arith, keep_own id rows pms)

pub keep_others :
    (id : ℤ) (rows : List PortMappingRow) (pms : List PortMappingDef)
    → keep
        (λ m. not (is_mapping_of id m))
        (keep (λ m. not (is_mapping_of id m)) rows ++ map (mapping_row id) pms)
      ≡ keep (λ m. not (is_mapping_of id m)) rows
keep_others id [] [] = refl
keep_others id [] (pm ∷ pms) = ground (arith, int_eq_iff id id, keep_others id [] pms)
keep_others id (m ∷ rows) pms = ground (arith, keep_others id rows pms)
