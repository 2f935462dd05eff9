-- ===== src/Punch/Room.antt =====
-- pkg/punch/room.go and roomjoin.go: a mesh of pair channels. The members' map is an association
-- list, whose order stands for whatever order a range over the map takes. A datagram is handled by
-- the one reader of the socket from start to end; `Join` runs beside it and is in Room/Race.
pub mod Receive
pub mod Invariant
pub mod Received
pub mod Histories
pub mod Race
pub mod Trust
pub mod Hello
pub mod Talk
mod Tests
use vapora.Base.{
  ℕ, ◌+◌, ◌≡◌, Bool, true, false, not, ◌&&◌, ◌||◌, Option, none, some, List, [], ◌∷◌, ◌++◌, ltb,
  leb, ◌==◌, if◌then◌else◌, is_some, length, take, drop, Bytes, bytes_eq, Result, ok, err,
}
use vapora.Base.Dict.{lookup, insert}
use vapora.Net.{UdpAddr}
use vapora.Punch.Frame.{Rand, kind_hello, kind_welcome, kind_intro, kind_full, padded, pad}
use vapora.Punch.Roster.{Entry, candidate, read_candidate, public_key_size, candidate_bytes}
use vapora.Punch.Candidates.{Candidates, consider, new_candidates, at, local_of}
use vapora.Punch.Codec.{SecretCodec}
use vapora.Punch.Session.{Session, Effect, new_session, set_peer, send}
use vapora.Punch.Mux.{Mux, new_mux, add_fallback, route}

-- `Max: 0` means this many.
abbrev pub max_members : ℕ
max_members = 8

pub data RoomError : Type 0 where
  that_is_this_member no_pair_codec room_full : RoomError

pub record Member : Type 0 where
  pub codec : SecretCodec
  pub session : Session
  pub candidates : Candidates

-- Who a datagram may go to: a member's session, or one of the two sinks that the room registers.
pub data Sink : Type 0 where
  member_sink : Bytes → Sink
  greet_sink adopt_sink : Sink

-- The fields that change, the room's own public key, its local address and its cap.
pub record Room : Type 0 where
  pub public_key : Bytes
  pub room_code : SecretCodec
  pub local : Option UdpAddr
  pub max : ℕ
  pub members : List (Bytes × Member)
  pub mux : Mux Sink

-- What the room does: what the session of a member did, and a frame of its own under the room key.
pub data Act : Type 0 where
  member_does : Bytes → Effect → Act
  room_sends : ℕ → Bytes → UdpAddr → Act

-- `NewRoom` on a mux of its own, after its guards and with the room's codec.
abbrev pub new_room : Bytes → SecretCodec → Option UdpAddr → ℕ → Room
new_room key code local max = record {
  public_key = key;
  room_code = code;
  local = local;
  max = if leb max 0 then max_members else max;
  members = [];
  mux = add_fallback (add_fallback new_mux greet_sink) adopt_sink;
}

-- `addr`.
unfoldable pub member_addr : Member → Option UdpAddr
member_addr m = elim m.session.peer [ none ↦ at m.candidates | some peer ↦ some peer ]

pub member_of : Room → Bytes → Option Member
member_of r key = lookup bytes_eq key r.members

abbrev pub put_member : Room → Bytes → Member → Room
put_member r key m = record r { members = insert bytes_eq key m r.members }

-- A candidate offered to a known member.
unfoldable pub suggest : Room → Bytes → Option UdpAddr → Room
suggest r key addr = elim (lookup bytes_eq key r.members) [
  | none ↦ r
  | some m ↦ put_member r key (record m { candidates = (consider m.candidates addr).0 })
]

unfoldable pub new_member : SecretCodec → Option UdpAddr → Member
new_member codec addr = record {
  codec = codec;
  session = set_peer new_session addr;
  candidates = new_candidates addr;
}

-- What `ensureMember` does for a key that is new, once the pair's codec is there.
unfoldable pub admit : Room → Bytes → Option UdpAddr → SecretCodec → Room
admit r key addr codec =
    let r' = put_member r key (new_member codec addr) in
    record r' { mux = (route r'.mux addr (some (member_sink key))).0 }

-- What `PairCodec` returns for a key.
abbrev pub Pairing : Type 0
Pairing = Bytes → Option SecretCodec

-- `ensureMember` by one caller at a time; the Boolean is true for a member that is new.
unfoldable pub ensure_member :
    Pairing → Room → Bytes → Option UdpAddr → Room × Result RoomError Bool
ensure_member pair r key addr =
    if bytes_eq key r.public_key
    then (r, err that_is_this_member)
    else if is_some (lookup bytes_eq key r.members)
    then (suggest r key addr, ok false)
    else if leb r.max (length r.members)
    then (r, err room_full)
    else elim (pair key) [
      | none ↦ (r, err no_pair_codec)
      | some codec ↦ (admit r key addr codec, ok true)
    ]

-- An entry of `roster`. The code would fault on a member with no address at all, which no caller
-- of `ensureMember` makes.
unfoldable pub roster_entry : Bytes × Member → Entry
roster_entry (key, m) = record {
  key = key;
  addr = member_addr m;
  local = elim (member_addr m) [ none ↦ none | some in_use ↦ local_of m.candidates in_use ];
}

unfoldable pub roster_of : List (Bytes × Member) → List Entry
roster_of [] = []
roster_of (m ∷ ms) = roster_entry m ∷ roster_of ms

unfoldable pub does : Bytes → List Effect → List Act
does key [] = []
does key (e ∷ es) = member_does key e ∷ does key es

-- A frame sent by the session of a member.
unfoldable pub member_sends : Bytes → Member → ℕ → Bytes → List Act
member_sends key m kind payload = does key (send m.session kind payload)
