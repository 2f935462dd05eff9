-- ===== src/Punch/Room/Receive.antt =====
-- pkg/punch/room.go and roomjoin.go: what a room does with a datagram.
use vapora.Base.{
  ℕ, ◌+◌, Bool, true, false, not, ◌||◌, Option, none, some, List, [], ◌∷◌, ◌++◌, ltb, ◌==◌,
  if◌then◌else◌, length, take, drop, Bytes, bytes_eq, Result, ok, err,
}
use vapora.Base.Dict.{lookup}
use vapora.Net.{UdpAddr}
use vapora.Punch.Frame.{
  Rand, kind_hello, kind_welcome, kind_roster, kind_intro, kind_full, allowed_under, layer_room,
  layer_pair, pad,
}
use vapora.Punch.Roster.{
  Entry, entry_candidates, marshal, parse_roster, read_candidate, public_key_size, candidate_bytes,
}
use vapora.Punch.Candidates.{local_of}
use vapora.Punch.Codec.{Crypto, CodecError, Opened, open_wire}
use vapora.Punch.Session.{Effect, sends, delivers, extras, first_contact}
use vapora.Punch.Session.Deliver.{deliver}
use vapora.Punch.Mux.{route, dispatch}
use vapora.Punch.Room.{
  Room, Member, Sink, member_sink, greet_sink, adopt_sink, Act, room_sends, RoomError, put_member,
  suggest, ensure_member, roster_of, does, member_sends, Pairing,
}

unfoldable pub suggest_all : Room → Bytes → List UdpAddr → Room
suggest_all r key [] = r
suggest_all r key (a ∷ as') = suggest_all (suggest r key (some a)) key as'

-- One entry of a roster that `merge` walks.
unfoldable pub merge_entry : Pairing → Room → Entry → Room
merge_entry pair r entry =
    let (r', met) = ensure_member pair r entry.key entry.addr in
    if bytes_eq entry.key r.public_key
    then r
    else elim met [ err e ↦ r' | ok fresh ↦ suggest_all r' entry.key (entry_candidates entry) ]

unfoldable pub merge_entries : Pairing → Room → List Entry → Room
merge_entries pair r [] = r
merge_entries pair r (e ∷ es) = merge_entries pair (merge_entry pair r e) es

unfoldable pub merge : Pairing → Room → Bytes → Room
merge pair r payload = elim (parse_roster payload r.max) [
  | err e ↦ r
  | ok es ↦ merge_entries pair r es
]

unfoldable pub room_frame : Pairing → Room → Opened → Room
room_frame pair r frame =
    if not (allowed_under frame.kind layer_pair)
    then r
    else if frame.kind == kind_welcome || frame.kind == kind_roster || frame.kind == kind_intro
    then merge pair r frame.payload
    else r

-- The `Extra` handler on what a session passes on.
unfoldable pub obey : Pairing → Room → List Effect → Room
obey pair r [] = r
obey pair r (sends kind payload to ∷ es) = obey pair r es
obey pair r (delivers payload ∷ es) = obey pair r es
obey pair r (extras frame ∷ es) = obey pair (room_frame pair r frame) es
obey pair r (first_contact ∷ es) = obey pair r es

-- `ParsePublicKey` of the payload's first 32 bytes through base32 and back.
unfoldable pub hello_key : Bytes → Option Bytes
hello_key payload =
    if length (take public_key_size payload) == public_key_size
    then some (take public_key_size payload)
    else none

unfoldable pub hello_local : Bytes → Option UdpAddr
hello_local payload =
    if ltb (length payload) (public_key_size + candidate_bytes)
    then none
    else read_candidate (take candidate_bytes (drop public_key_size payload))

unfoldable pub intros : Bytes → Bytes → List (Bytes × Member) → List Act
intros key entry [] = []
intros key entry ((k, m) ∷ ms) =
    if bytes_eq k key
    then intros key entry ms
    else member_sends k m kind_intro entry ++ intros key entry ms

-- `introduce`.
unfoldable pub introduce : Room → Bytes → UdpAddr → Rand → List Act
introduce r key addr rand =
    let local : Option UdpAddr = elim (lookup bytes_eq key r.members) [
      | none ↦ none
      | some m ↦ local_of m.candidates addr
    ] in
    let entry = marshal rand (record { key = key; addr = some addr; local = local } ∷ []) in
    intros key entry r.members

unfoldable pub send_roster : Room → Bytes → Rand → List Act
send_roster r key rand = elim (lookup bytes_eq key r.members) [
  | none ↦ []
  | some m ↦ member_sends key m kind_welcome (marshal rand (roster_of r.members))
]

-- The hello's local address, offered to a member that is known already.
unfoldable pub take_local : Room → Bytes → Bytes → Room
take_local r key payload = elim (hello_local payload) [
  | none ↦ r
  | some local ↦ suggest r key (some local)
]

-- What `greet` answers once `ensureMember` returned. The introductions run in a goroutine of their
-- own; here they come after the roster.
unfoldable pub answer_hello :
    Room → Result RoomError Bool → Bytes → UdpAddr → Rand → Rand → List Act
answer_hello r (ok fresh) key from rand rand' =
    send_roster r key rand ++ (if fresh then introduce r key from rand' else [])
answer_hello r (err RoomError.room_full) key from rand rand' =
    room_sends kind_full (pad rand) from ∷ []
answer_hello r (err RoomError.that_is_this_member) key from rand rand' = []
answer_hello r (err RoomError.no_pair_codec) key from rand rand' = []

-- The part of `greet` after the hello's key.
unfoldable pub greet_hello :
    Pairing → Room → Bytes → Bytes → UdpAddr → Rand → Rand → Room × List Act
greet_hello pair r key payload from rand rand' =
    let (r', met) = ensure_member pair (take_local r key payload) key (some from) in
    (r', answer_hello r' met key from rand rand')

unfoldable pub greet_frame : Pairing → Room → Opened → UdpAddr → Rand → Rand → Room × List Act
greet_frame pair r frame from rand rand' =
    if not (allowed_under frame.kind layer_room)
    then (r, [])
    else if not (frame.kind == kind_hello)
    then (r, [])
    else elim (hello_key frame.payload) [
      | none ↦ (r, [])
      | some key ↦ greet_hello pair r key frame.payload from rand rand'
    ]

unfoldable pub greet_outcome :
    Pairing → Room → Result CodecError Opened → UdpAddr → Rand → Rand → Room × Bool × List Act
greet_outcome pair r (err e) from rand rand' = (r, false, [])
greet_outcome pair r (ok frame) from rand rand' =
    let (r', acts) = greet_frame pair r frame from rand rand' in (r', true, acts)

module _ (crypto : Crypto) (pair : Pairing) where
  unfoldable pub greet : Room → Bytes → UdpAddr → Rand → Rand → Room × Bool × List Act
  greet r payload from rand rand' =
      let (code, outcome) = open_wire crypto r.room_code payload in
      let r' = record r { room_code = code } in greet_outcome pair r' outcome from rand rand'

  -- A member's session takes or refuses a datagram, and the room obeys what it passes on.
  unfoldable pub receive_member : Room → Bytes → Bytes → UdpAddr → ℕ → Rand → Room × Bool × List Act
  receive_member r key payload from now rand = elim (lookup bytes_eq key r.members) [
    | none ↦ (r, false, [])
    | some m ↦
        let ((codec, session), taken, effects) =
          deliver crypto (m.codec, m.session) payload from now rand in
        (
          obey pair (put_member r key (record m { codec = codec; session = session })) effects,
          taken,
          does key effects,
        )
  ]

  unfoldable pub adopt_among :
      Room → List (Bytes × Member) → Bytes → UdpAddr → ℕ → Rand → Room × Bool × List Act
  adopt_among r [] payload from now rand = (r, false, [])
  adopt_among r ((key, m) ∷ ms) payload from now rand =
      let (r', taken, acts) = receive_member r key payload from now rand in
      let (r'', found, more) = adopt_among r' ms payload from now rand in
      if taken
      then (record r' { mux = (route r'.mux (some from) (some (member_sink key))).0 }, true, acts)
      else (r'', found, acts ++ more)

  unfoldable pub adopt : Room → Bytes → UdpAddr → ℕ → Rand → Room × Bool × List Act
  adopt r payload from now rand = adopt_among r r.members payload from now rand

  -- The sinks' `Deliver`, over the room and what it has done so far.
  unfoldable pub sink_deliver :
      ℕ → Rand → Rand → Sink → Bytes → UdpAddr → Room × List Act → (Room × List Act) × Bool
  sink_deliver now rand rand' (member_sink key) payload from (r, acts) =
      let (r', taken, more) = receive_member r key payload from now rand in
      ((r', acts ++ more), taken)
  sink_deliver now rand rand' greet_sink payload from (r, acts) =
      let (r', taken, more) = greet r payload from rand rand' in ((r', acts ++ more), taken)
  sink_deliver now rand rand' adopt_sink payload from (r, acts) =
      let (r', taken, more) = adopt r payload from now rand in ((r', acts ++ more), taken)

  -- The reader's `dispatch` of one datagram.
  unfoldable pub receive : Room → Bytes → UdpAddr → ℕ → Rand → Rand → Room × List Act
  receive r payload from now rand rand' =
      dispatch (sink_deliver now rand rand') r.mux payload from (r, [])
