-- ===== src/Games/Tests.antt =====
-- The seeding and the listing of a concrete game.
use game_server_manager.Base.{◌≡◌, refl, inr, false, some, List, [], ◌∷◌, map}
use game_server_manager.Base.Int.{pos}
use game_server_manager.Games.{GameFaults, seed_game}
use game_server_manager.Games.Cs2
use game_server_manager.Games.Seeding.{IsSeeded, seed_game-IsSeeded}
use game_server_manager.Games.Definitions.{JoinedRow, group_rows}
use game_server_manager.Games.Grouping.{listing_of, first_ids, group_rows-listing_of}
use game_server_manager.Samples.{cs2, casual, sample_db}

abbrev no_game_faults : GameFaults
no_game_faults = record { upsert = false; delete = false; mapping = λ i. false; mode = λ i. false }

-- CS2 is seeded again over a database that has it.
seed_game-IsSeeded_example : IsSeeded Cs2.cs2 sample_db (seed_game no_game_faults Cs2.cs2 sample_db)
seed_game-IsSeeded_example =
    seed_game-IsSeeded no_game_faults Cs2.cs2 sample_db refl refl (λ i. refl) (λ i. refl)
      (refl, (refl, tt)) (refl, (refl, (refl, tt))) refl (inr (cs2, refl))

abbrev two_rows : List JoinedRow
two_rows = (cs2, some casual) ∷ (cs2, some (record casual { id = pos 2; name = "Deathmatch" })) ∷ []

group_rows-listing_of_example :
    group_rows two_rows ≡ map (λ id. listing_of id two_rows) (first_ids (λ _. false) two_rows)
group_rows-listing_of_example = group_rows-listing_of two_rows
