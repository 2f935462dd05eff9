-- ===== src/Pong/Tests.antt =====
-- A few ticks of a game, with a hostile paddle from the network.
use vapora.Base.{◌≡◌, some, List, [], ◌∷◌, map, All}
use vapora.Pong.{decode_state}
use vapora.Pong.Rules.{Event, key_up, ticked, received, host, new_game}
use vapora.Pong.Court.{OnCourt, states_at_ticks, host-new_game}

abbrev events : List Event
events =
    ticked ∷ key_up ∷ received (1 ∷ 0xFF ∷ 0xFF ∷ []) ∷ ticked ∷ received (3 ∷ []) ∷ ticked ∷ []

host-new_game_example :
    (map decode_state (host events new_game).1 ≡ map some (states_at_ticks events new_game))
    × All OnCourt (states_at_ticks events new_game)
host-new_game_example = host-new_game events
