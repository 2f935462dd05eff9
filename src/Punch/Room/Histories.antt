-- ===== src/Punch/Room/Histories.antt =====
-- pkg/punch/room.go, roomjoin.go and candidates.go: histories of a room whose callers wait for one
-- another.
use vapora.Base.{
  ℕ, ◌≡◌, inl, inr, refl, Option, none, some, List, [], ◌∷◌, length, All, arith, Bytes, bytes_eq,
  Option-cases,
}
use vapora.Base.Dict.{lookup}
use vapora.Net.{UdpAddr}
use vapora.Punch.Frame.{Rand}
use vapora.Punch.Candidates.{next}
use vapora.Punch.Candidates.Rotation.{next-IsValid}
use vapora.Punch.Codec.{Crypto, SecretCodec}
use vapora.Punch.Session.{set_peer}
use vapora.Punch.Session.Run.{Event, step}
use vapora.Punch.Session.Invariant.{set_peer-Inv, send_payload-Inv, step-Inv}
use vapora.Punch.Room.{Room, Member, Act, new_room, put_member, ensure_member, does, Pairing}
use vapora.Punch.Room.Invariant.{
  RoomInv, DistinctKeys, IsSound, found-IsSound, update-RoomInv, ensure_member-RoomInv,
}
use vapora.Punch.Room.Receive.{receive}
use vapora.Punch.Room.Received.{remuxed-RoomInv, receive-RoomInv}
use vapora.Punch.Room.Talk.{send_to, say_each, broadcast, try_next, rotate_round}

-- A step of a member's own session: what its loops do, and what its caller does.
unfoldable pub member_step : Room → Bytes → Event → Room × List Act
member_step r key event = elim (lookup bytes_eq key r.members) [
  | none ↦ (r, [])
  | some m ↦
      let (session, effects) = step m.session event in
      (put_member r key (record m { session = session }), does key effects)
]

pub data RoomEvent : Type 0 where
  receives : Bytes → UdpAddr → ℕ → Rand → Rand → RoomEvent
  -- The first step of `Join`.
  joins : Bytes → UdpAddr → RoomEvent
  tells : Bytes → Bytes → RoomEvent
  tells_all : Bytes → RoomEvent
  rotates : Bytes → Rand → RoomEvent
  steps : Bytes → Event → RoomEvent

module _ (crypto : Crypto) (pair : Pairing) where
  unfoldable pub room_step : Room → RoomEvent → Room
  room_step r (receives payload from now rand rand') =
      (receive crypto pair r payload from now rand rand').0
  room_step r (joins host endpoint) = (ensure_member pair r host (some endpoint)).0
  room_step r (tells key payload) = (send_to r key payload).0
  room_step r (tells_all payload) = (broadcast r payload).0
  room_step r (rotates key rand) = (rotate_round r key rand).0
  room_step r (steps key event) = (member_step r key event).0

  unfoldable pub room_run : Room → List RoomEvent → Room
  room_run r [] = r
  room_run r (e ∷ es) = room_run (room_step r e) es

  send_to-RoomInv : (r : Room) (key payload : Bytes) → RoomInv r → RoomInv (send_to r key payload).0
  unfolding send_to
  send_to-RoomInv r key payload v = elim (Option-cases (lookup bytes_eq key r.members)) [
    | inl e ↦ rw (e, send_to) v
    | inr (m, e) ↦
        let (c, s) = found-IsSound key m r.members v.sound e in
        rw (e, send_to) (update-RoomInv r key m _ v e c (send_payload-Inv m.session payload s))
  ]

  member_step-RoomInv :
      (r : Room) (key : Bytes) (e : Event) → RoomInv r → RoomInv (member_step r key e).0
  unfolding member_step
  member_step-RoomInv r key event v = elim (Option-cases (lookup bytes_eq key r.members)) [
    | inl e ↦ rw (e, member_step) v
    | inr (m, e) ↦
        let (c, s) = found-IsSound key m r.members v.sound e in
        rw (e, member_step) (update-RoomInv r key m _ v e c (step-Inv m.session event s))
  ]

  try_next-RoomInv :
      (r : Room) (key : Bytes) (m : Member) (rand : Rand)
      → RoomInv r
      → lookup bytes_eq key r.members ≡ some m
      → RoomInv (try_next r key m rand).0
  unfolding try_next
  try_next-RoomInv r key m rand v e =
      let (c, s) = found-IsSound key m r.members v.sound e in
      let (moved, addr) = next m.candidates in
      let still =
        update-RoomInv r key m (record m { candidates = moved }) v e (next-IsValid m.candidates c)
          s in
      elim (Option-cases addr) [
        | inl none_left ↦ rw (none_left, try_next) still
        | inr (a, found) ↦
            rw (found, try_next)
              (remuxed-RoomInv crypto pair _ _ (
                update-RoomInv r key m
                  (record m { session = set_peer m.session (some a); candidates = moved }) v e
                  (next-IsValid m.candidates c) (set_peer-Inv m.session (some a) s)))
      ]

  rotate_round-RoomInv :
      (r : Room) (key : Bytes) (rand : Rand) → RoomInv r → RoomInv (rotate_round r key rand).0
  unfolding rotate_round
  rotate_round-RoomInv r key rand v = elim (Option-cases (lookup bytes_eq key r.members)) [
    | inl e ↦ rw (e, rotate_round) v
    | inr (m, e) ↦ rw (e, rotate_round) (ground (arith, v, try_next-RoomInv r key m rand v e))
  ]

  lookup-say_each :
      (key : Bytes) (ms : List (Bytes × Member)) (payload : Bytes)
      → lookup bytes_eq key ms ≡ none
      → lookup bytes_eq key (say_each ms payload).0 ≡ none
  unfolding say_each
  lookup-say_each key [] payload h = refl
  lookup-say_each key ((k, m) ∷ ms) payload h = ground (arith, lookup-say_each key ms payload)

  length-say_each :
      (ms : List (Bytes × Member)) (payload : Bytes) → length (say_each ms payload).0 ≡ length ms
  unfolding say_each
  length-say_each [] payload = refl
  length-say_each ((k, m) ∷ ms) payload = ground (arith, length-say_each ms payload)

  DistinctKeys-say_each :
      (ms : List (Bytes × Member)) (payload : Bytes)
      → DistinctKeys ms
      → DistinctKeys (say_each ms payload).0
  unfolding say_each
  DistinctKeys-say_each [] payload d = tt
  DistinctKeys-say_each ((k, m) ∷ ms) payload (e, d) =
      (lookup-say_each k ms payload e, DistinctKeys-say_each ms payload d)

  IsSound-say_each :
      (ms : List (Bytes × Member)) (payload : Bytes)
      → All IsSound ms
      → All IsSound (say_each ms payload).0
  unfolding say_each
  IsSound-say_each [] payload h = tt
  IsSound-say_each ((k, m) ∷ ms) payload ((c, s), h) =
      ((c, send_payload-Inv m.session payload s), IsSound-say_each ms payload h)

  broadcast-RoomInv : (r : Room) (payload : Bytes) → RoomInv r → RoomInv (broadcast r payload).0
  unfolding broadcast
  broadcast-RoomInv r payload v = record {
    distinct = DistinctKeys-say_each r.members payload v.distinct;
    no_self = lookup-say_each r.public_key r.members payload v.no_self;
    small = ground (arith, length-say_each r.members payload, v.small);
    sound = IsSound-say_each r.members payload v.sound;
  }

  room_step-RoomInv : (r : Room) (e : RoomEvent) → RoomInv r → RoomInv (room_step r e)
  unfolding room_step
  room_step-RoomInv r (receives payload from now rand rand') v =
      receive-RoomInv crypto pair r payload from now rand rand' v
  room_step-RoomInv r (joins host endpoint) v = ensure_member-RoomInv pair r host (some endpoint) v
  room_step-RoomInv r (tells key payload) v = send_to-RoomInv r key payload v
  room_step-RoomInv r (tells_all payload) v = broadcast-RoomInv r payload v
  room_step-RoomInv r (rotates key rand) v = rotate_round-RoomInv r key rand v
  room_step-RoomInv r (steps key event) v = member_step-RoomInv r key event v

  room_run-RoomInv : (r : Room) (es : List RoomEvent) → RoomInv r → RoomInv (room_run r es)
  unfolding room_run
  room_run-RoomInv r [] v = v
  room_run-RoomInv r (e ∷ es) v = room_run-RoomInv (room_step r e) es (room_step-RoomInv r e v)

  -- Whatever datagrams arrive, from members or strangers, and whatever its callers do one after
  -- the other: a room never holds a key twice, its own key or more members than its cap, and
  -- every member has a sound candidate set and a sound session.
  pub room_run-new_room-RoomInv :
      (key : Bytes) (code : SecretCodec) (local : Option UdpAddr) (max : ℕ) (es : List RoomEvent)
      → RoomInv (room_run (new_room key code local max) es)
  room_run-new_room-RoomInv key code local max es =
      room_run-RoomInv (new_room key code local max) es
        (record { distinct = tt; no_self = refl; small = omega arith; sound = tt })
