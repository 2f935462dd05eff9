-- ===== src/Punch/Room/Tests.antt =====
-- A concrete room of pkg/punch/room.go, over the toy cryptography of the codec's tests.
use vapora.Base.{
  ℕ, ◌+◌, ◌≡◌, refl, none, some, List, [], ◌∷◌, ◌++◌, length, replicate, Bytes, bytes_eq,
}
use vapora.Base.Dict.{lookup}
use vapora.Net.{v4, UdpAddr}
use vapora.Punch.Frame.{Rand, kind_welcome}
use vapora.Punch.Codec.{SecretCodec, Opened, new_codec}
use vapora.Punch.Codec.Tests.{tagging}
use vapora.Punch.Session.Run.{pings}
use vapora.Punch.Room.{Room, new_room, new_member, Pairing}
use vapora.Punch.Room.Receive.{room_frame}
use vapora.Punch.Room.Invariant.{RoomInv}
use vapora.Punch.Room.Histories.{
  RoomEvent, receives, joins, tells_all, rotates, steps, room_run, room_run-new_room-RoomInv,
}
use vapora.Punch.Room.Race.{Move, begins, finishes, race, race-overshoots}
use vapora.Punch.Room.Trust.{Untouched, Untouched-room_frame}

abbrev host : ℕ → UdpAddr
host n = record { ip = v4 10 0 0 n; port = 9 }

abbrev key_of : ℕ → Bytes
key_of n = replicate 32 n

abbrev some_codec : SecretCodec
some_codec = new_codec (1 ∷ []) (1 ∷ []) (1 ∷ 2 ∷ 3 ∷ 4 ∷ [])

abbrev pairs : Pairing
pairs key = some (new_codec key key (1 ∷ 2 ∷ 3 ∷ 4 ∷ []))

abbrev bare : Rand
bare = record { two = none; fill = λ n. none }

abbrev empty_room : Room
empty_room = new_room (key_of 1) some_codec (some (host 7)) 2

abbrev history : List RoomEvent
history =
    joins (key_of 2) (host 2)
    ∷ tells_all (b'a' ∷ [])
    ∷ rotates (key_of 2) bare
    ∷ receives [] (host 3) 5 bare bare
    ∷ steps (key_of 2) (pings 9 bare bare)
    ∷ joins (key_of 3) (host 3)
    ∷ joins (key_of 4) (host 4)
    ∷ []

room_run-new_room-RoomInv_example :
    RoomInv (room_run tagging pairs (new_room (key_of 1) some_codec (some (host 7)) 2) history)
room_run-new_room-RoomInv_example =
    room_run-new_room-RoomInv tagging pairs (key_of 1) some_codec (some (host 7)) 2 history

abbrev one_left : Room
one_left = record empty_room { members = (key_of 2, new_member some_codec (some (host 2))) ∷ [] }

abbrev two_callers : List Move
two_callers =
    begins (key_of 3) none
    ∷ begins (key_of 4) none
    ∷ finishes (key_of 3) none some_codec
    ∷ finishes (key_of 4) none some_codec
    ∷ []

race-overshoots_example :
    length (race 2 (record { room = one_left; flight = [] }) two_callers).room.members ≡ 2 + 1
unfolding bytes_eq
race-overshoots_example =
    race-overshoots one_left (key_of 3) (key_of 4) none some_codec refl refl refl refl refl refl

abbrev gossip : Opened
gossip = record {
  kind = kind_welcome;
  payload = 1 ∷ key_of 2 ++ 10 ∷ 0 ∷ 0 ∷ 9 ∷ 0 ∷ 9 ∷ replicate 6 0;
  sender = [];
}

Untouched-room_frame_example :
    Untouched
      (lookup bytes_eq (key_of 2) one_left.members)
      (lookup bytes_eq (key_of 2) (room_frame pairs one_left gossip).members)
Untouched-room_frame_example = Untouched-room_frame pairs one_left gossip (key_of 2)
