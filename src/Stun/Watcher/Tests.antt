-- ===== src/Stun/Watcher/Tests.antt =====
-- Two answers to one request, for pkg/stun/watcher.go.
use vapora.Base.{◌≤◌, ◌≡◌, refl, List, [], ◌∷◌, ◌++◌, Bytes, All, bytes_eq}
use vapora.Stun.{decode_address, conclude, walk, see, parse_binding_response}
use vapora.Stun.Watcher.{
  Event, probed, received, watched, run, new_watcher, step, probe, handle, handle_ours, observe,
  observe_after, response_transaction, unexpired,
}
use vapora.Stun.Watcher.Claims.{claims, draws, strays, claims-new_watcher}
use vapora.Stun.Watcher.Changes.{IsSound, IsChange, closes, run-new_watcher}

abbrev id : Bytes
id = 1 ∷ 2 ∷ 3 ∷ 4 ∷ 5 ∷ 6 ∷ 7 ∷ 8 ∷ 9 ∷ 10 ∷ 11 ∷ 12 ∷ []

-- MAPPED-ADDRESS 198.51.100.7, port 9.
abbrev answer : Bytes
answer =
    1 ∷ 1 ∷ 0 ∷ 12 ∷ 0x21 ∷ 0x12 ∷ 0xA4 ∷ 0x42 ∷ id
    ++ 0 ∷ 1 ∷ 0 ∷ 8 ∷ 0 ∷ 1 ∷ 0 ∷ 9 ∷ 198 ∷ 51 ∷ 100 ∷ 7 ∷ []

abbrev history : List Event
history = probed id 5 ∷ watched ∷ received answer ∷ received answer ∷ []

abbrev servers : List Bytes
servers = (b's' ∷ []) ∷ []

history_run : claims id (new_watcher [] servers 0) history ≡ 1
unfolding claims new_watcher step probe handle handle_ours observe observe_after
    response_transaction unexpired parse_binding_response bytes_eq conclude walk see decode_address
history_run = refl

claims-new_watcher_example :
    (claims id (new_watcher [] servers 0) history ≤ draws id history)
    × (strays [] (new_watcher [] servers 0) history ≡ 0)
claims-new_watcher_example = claims-new_watcher id [] servers 0 history

run-new_watcher_example :
    IsSound (run (new_watcher [] servers 0) history).0
    × (closes (run (new_watcher [] servers 0) history).1 ≤ 1)
    × All IsChange (run (new_watcher [] servers 0) history).1
run-new_watcher_example = run-new_watcher [] servers 0 history
