-- ===== src/Punch/Room/Talk.antt =====
-- pkg/punch/room.go, candidates.go and roomjoin.go: what a room says, and the rounds of its loops.
use vapora.Base.{Bool, true, false, none, some, List, [], ◌∷◌, ◌++◌, if◌then◌else◌, Bytes, bytes_eq}
use vapora.Base.Dict.{lookup}
use vapora.Net.{UdpAddr}
use vapora.Punch.Frame.{Rand, kind_hello, padded}
use vapora.Punch.Roster.{candidate}
use vapora.Punch.Candidates.{next}
use vapora.Punch.Codec.{Crypto, seal}
use vapora.Punch.Session.{sends, set_peer}
use vapora.Punch.Session.Deliver.{send_payload, goodbye}
use vapora.Punch.Mux.{route}
use vapora.Punch.Room.{Room, Member, member_sink, Act, member_does, room_sends, put_member, does}

-- `sayHello`.
unfoldable pub say_hello : Room → UdpAddr → Rand → List Act
say_hello r to rand =
    room_sends kind_hello (padded rand (r.public_key ++ candidate r.local)) to ∷ []

-- A member found says something; `false` for a key that is not in the room.
unfoldable pub send_to : Room → Bytes → Bytes → Room × Bool × List Act
send_to r key payload = elim (lookup bytes_eq key r.members) [
  | none ↦ (r, false, [])
  | some m ↦
      let (session, effects) = send_payload m.session payload in
      (put_member r key (record m { session = session }), true, does key effects)
]

unfoldable pub say_each : List (Bytes × Member) → Bytes → List (Bytes × Member) × List Act
say_each [] payload = ([], [])
say_each ((key, m) ∷ ms) payload =
    let (session, effects) = send_payload m.session payload in
    let (rest, acts) = say_each ms payload in
    ((key, record m { session = session }) ∷ rest, does key effects ++ acts)

unfoldable pub broadcast : Room → Bytes → Room × List Act
broadcast r payload =
    let (members, acts) = say_each r.members payload in (record r { members = members }, acts)

unfoldable pub leave_each : List (Bytes × Member) → Rand → List Act
leave_each [] rand = []
leave_each ((key, m) ∷ ms) rand = does key (goodbye m.session rand) ++ leave_each ms rand

-- `Room.Goodbye`.
unfoldable pub room_goodbye : Room → Rand → List Act
room_goodbye r rand = leave_each r.members rand

-- A round of `rotate` for a member whose path is not open yet.
unfoldable pub try_next : Room → Bytes → Member → Rand → Room × List Act
try_next r key m rand =
    let (candidates, addr) = next m.candidates in
    elim addr [
      | none ↦ (put_member r key (record m { candidates = candidates }), [])
      | some a ↦
          let r' =
            put_member r key
              (record m { session = set_peer m.session (some a); candidates = candidates }) in
          (
            record r' { mux = (route r'.mux (some a) (some (member_sink key))).0 },
            say_hello r a rand,
          )
    ]

-- A round of `rotate`.
unfoldable pub rotate_round : Room → Bytes → Rand → Room × List Act
rotate_round r key rand = elim (lookup bytes_eq key r.members) [
  | none ↦ (r, [])
  | some m ↦ if m.session.is_open then (r, []) else try_next r key m rand
]

module _ (crypto : Crypto) where
  -- What one act puts on the wire, sealed by the member's codec or the room's.
  unfoldable pub transmit_one : Room → Act → Room × List (Bytes × UdpAddr)
  transmit_one r (member_does key (sends kind payload to)) = elim (lookup bytes_eq key r.members) [
    | none ↦ (r, [])
    | some m ↦
        let (codec, wire) = seal crypto m.codec kind payload in
        (put_member r key (record m { codec = codec }), (wire, to) ∷ [])
  ]
  transmit_one r (member_does key other) = (r, [])
  transmit_one r (room_sends kind payload to) =
      let (codec, wire) = seal crypto r.room_code kind payload in
      (record r { room_code = codec }, (wire, to) ∷ [])

  unfoldable pub transmit : Room → List Act → Room × List (Bytes × UdpAddr)
  transmit r [] = (r, [])
  transmit r (a ∷ as') =
      let (r', sent) = transmit_one r a in let (r'', rest) = transmit r' as' in (r'', sent ++ rest)
