-- ===== src/Punch/Replay/Tests.antt =====
-- Runs of the replay window of pkg/punch/replay.go.
use vapora.Base.{ℕ, List, ◌≡◌, refl, true, false, [], ◌∷◌}
use vapora.Punch.Replay.{accept_all, empty_window}
use vapora.Punch.Replay.Refines.{fresh_all, accept_all-fresh_all}

-- Reordered nonces pass once, repeats and zero do not, and 64 below the highest is too old.
accept_all_run :
    accept_all empty_window (2 ∷ 1 ∷ 2 ∷ 0 ∷ 66 ∷ 2 ∷ 3 ∷ 3 ∷ 1000 ∷ [])
    ≡ true ∷ true ∷ false ∷ false ∷ true ∷ false ∷ true ∷ false ∷ true ∷ []
unfolding accept_all
accept_all_run = refl

abbrev arrivals : List ℕ
arrivals = 2 ∷ 1 ∷ 2 ∷ 0 ∷ 66 ∷ 2 ∷ []

accept_all-fresh_all_example : accept_all empty_window arrivals ≡ fresh_all [] arrivals
accept_all-fresh_all_example = accept_all-fresh_all arrivals
