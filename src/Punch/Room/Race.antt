-- ===== src/Punch/Room/Race.antt =====
-- pkg/punch/room.go, `ensureMember` by callers at the same time: the lock is let go between the
-- test of the cap and the insertion, while the pair's codec is derived.
use vapora.Base.{
  ℕ, ◌+◌, ◌≤◌, ◌<◌, ◌≡◌, ◌⊎◌, inl, inr, refl, Bool, true, false, Option, none, some, List, [], ◌∷◌,
  leb, if◌then◌else◌, is_some, length, arith, Bytes, bytes_eq, bytes_eq_iff, Result, ok, err,
  Option-cases, Result-cases,
}
use vapora.Base.Dict.{lookup, insert, lookup-insert, length-insert}
use vapora.Net.{UdpAddr}
use vapora.Punch.Candidates.{consider}
use vapora.Punch.Codec.{SecretCodec}
use vapora.Punch.Room.{
  Room, RoomError, that_is_this_member, no_pair_codec, room_full, suggest, new_member, admit,
  ensure_member, Pairing,
}

-- The room and the callers that are between the two sections, each with its key.
pub record Racing : Type 0 where
  pub room : Room
  pub flight : List Bytes

-- Up to the first unlock.
unfoldable pub begin_member : Room → Bytes → Option UdpAddr → Room × Result RoomError Bool
begin_member r key addr =
    if bytes_eq key r.public_key
    then (r, err that_is_this_member)
    else if is_some (lookup bytes_eq key r.members)
    then (suggest r key addr, ok false)
    else if leb r.max (length r.members)
    then (r, err room_full)
    else (r, ok true)

-- From the second lock on.
unfoldable pub finish_member : Room → Bytes → Option UdpAddr → SecretCodec → Room × Bool
finish_member r key addr codec =
    if is_some (lookup bytes_eq key r.members) then (r, false) else (admit r key addr codec, true)

-- One caller from end to end, with nobody in between.
abbrev pub goes_on :
    Pairing → Room → Bytes → Option UdpAddr → Result RoomError Bool → Room × Result RoomError Bool
goes_on pair r key addr (err e) = (r, err e)
goes_on pair r key addr (ok false) = (r, ok false)
goes_on pair r key addr (ok true) = elim (pair key) [
  | none ↦ (r, err no_pair_codec)
  | some codec ↦ let (r', fresh) = finish_member r key addr codec in (r', ok fresh)
]

-- A caller that nobody runs beside gets what `ensure_member` says.
pub begin_member-ensure_member :
    (pair : Pairing) (r : Room) (key : Bytes) (addr : Option UdpAddr)
    → goes_on pair (begin_member r key addr).0 key addr (begin_member r key addr).1
      ≡ ensure_member pair r key addr
unfolding begin_member finish_member ensure_member
begin_member-ensure_member pair r key addr =
    ground (arith, Option-cases (pair key), Option-cases (lookup bytes_eq key r.members))

-- A caller starts, is refused the pair's codec, or comes to the second lock.
pub data Move : Type 0 where
  begins : Bytes → Option UdpAddr → Move
  gives_up : Bytes → Move
  finishes : Bytes → Option UdpAddr → SecretCodec → Move

abbrev pub waits : List Bytes → Bytes → Bool
waits [] key = false
waits (k ∷ ks) key = if bytes_eq k key then true else waits ks key

abbrev pub lands : List Bytes → Bytes → List Bytes
lands [] key = []
lands (k ∷ ks) key = if bytes_eq k key then ks else k ∷ lands ks key

unfoldable pub race_step : ℕ → Racing → Move → Racing
race_step callers s (begins key addr) =
    let (r, begun) = begin_member s.room key addr in
    if leb callers (length s.flight) then s else elim begun [
      | err e ↦ record s { room = r }
      | ok on ↦ record { room = r; flight = if on then key ∷ s.flight else s.flight }
    ]
race_step callers s (gives_up key) = record s { flight = lands s.flight key }
race_step callers s (finishes key addr codec) =
    if waits s.flight key
    then record { room = (finish_member s.room key addr codec).0; flight = lands s.flight key }
    else s

unfoldable pub race : ℕ → Racing → List Move → Racing
race callers s [] = s
race callers s (m ∷ ms) = race callers (race_step callers s m) ms

length-lands :
    (ks : List Bytes) (key : Bytes)
    → length ks ≡ (if waits ks key then length (lands ks key) + 1 else length (lands ks key))
length-lands [] key = refl
length-lands (k ∷ ks) key = ground (arith, length-lands ks key)

abbrev goes : Result RoomError Bool → Bool
goes (err e) = false
goes (ok on) = on

suggest-length :
    (r : Room) (key : Bytes) (addr : Option UdpAddr)
    → (length (suggest r key addr).members ≡ length r.members) × ((suggest r key addr).max ≡ r.max)
unfolding suggest
suggest-length r key addr = elim (Option-cases (lookup bytes_eq key r.members)) [
  | inl e ↦ ground arith
  | inr (m, e) ↦ ground (
    arith,
    length-insert bytes_eq key (record m { candidates = (consider m.candidates addr).0 }) r.members,
  )
]

begin_member-length :
    (r : Room) (key : Bytes) (addr : Option UdpAddr)
    → let (t, begun) = begin_member r key addr in
      (length t.members ≡ length r.members)
      × (t.max ≡ r.max)
      × ((goes begun ≡ false) ⊎ (length r.members < r.max))
unfolding begin_member
begin_member-length r key addr = ground (arith, suggest-length r key addr)

finish_member-length :
    (r : Room) (key : Bytes) (addr : Option UdpAddr) (codec : SecretCodec)
    → (length (finish_member r key addr codec).0.members ≤ length r.members + 1)
      × ((finish_member r key addr codec).0.max ≡ r.max)
unfolding finish_member admit
finish_member-length r key addr codec =
    ground (arith, length-insert bytes_eq key (new_member codec addr) r.members)

-- The members there are and those on their way.
record Fits (cap callers : ℕ) (s : Racing) : Type 0 where
  cap_is : s.room.max ≡ cap
  inside : length s.room.members + length s.flight < cap + callers
  running : length s.flight ≤ callers

race_step-Fits :
    (cap callers : ℕ) (s : Racing) (m : Move)
    → Fits cap callers s
    → Fits cap callers (race_step callers s m)
unfolding race_step
race_step-Fits cap callers s (begins key addr) v =
    let sizes = begin_member-length s.room key addr in
    elim (Result-cases (begin_member s.room key addr).1) [
      | inl (e, h) ↦ ground (arith, v, sizes)
      | inr (on, h) ↦ ground (arith, v, sizes)
    ]
race_step-Fits cap callers s (gives_up key) v = ground (arith, v, length-lands s.flight key)
race_step-Fits cap callers s (finishes key addr codec) v =
    ground (arith, v, length-lands s.flight key, finish_member-length s.room key addr codec)

race-Fits :
    (cap callers : ℕ) (s : Racing) (ms : List Move)
    → Fits cap callers s
    → Fits cap callers (race callers s ms)
unfolding race
race-Fits cap callers s [] v = v
race-Fits cap callers s (m ∷ ms) v =
    race-Fits cap callers (race_step callers s m) ms (race_step-Fits cap callers s m v)

-- With at most k callers inside `ensureMember` at a time, in any interleaving, a room that started
-- within its cap never has more than k - 1 members beyond it: one caller alone keeps the cap.
pub race-length :
    (callers : ℕ) (r : Room) (ms : List Move)
    → 1 ≤ callers
    → length r.members ≤ r.max
    → length (race callers (record { room = r; flight = [] }) ms).room.members < r.max + callers
race-length callers r ms h g =
    let start : Fits r.max callers (record { room = r; flight = [] }) = record {
      cap_is = refl;
      inside = omega arith;
      running = omega arith;
    } in
    let v = race-Fits r.max callers (record { room = r; flight = [] }) ms start in
    omega (arith, v.inside)

-- The bound is met: two callers with different new keys, both past the test of the cap before
-- either inserts, leave a room that had one place left with one member too many.
pub race-overshoots :
    (r : Room) (a b : Bytes) (from : Option UdpAddr) (codec : SecretCodec)
    → length r.members + 1 ≡ r.max
    → bytes_eq a b ≡ false
    → bytes_eq a r.public_key ≡ false
    → bytes_eq b r.public_key ≡ false
    → lookup bytes_eq a r.members ≡ none
    → lookup bytes_eq b r.members ≡ none
    → length
        (race 2
          (record { room = r; flight = [] })
          (begins a from
            ∷ begins b from
            ∷ finishes a from codec
            ∷ finishes b from codec
            ∷ [])).room.members
      ≡ r.max + 1
unfolding race race_step begin_member finish_member admit
race-overshoots r a b from codec full ne not_a not_b new_a new_b = ground (
  arith,
  bytes_eq_iff a a,
  bytes_eq_iff b a,
  bytes_eq_iff a b,
  bytes_eq_iff b b,
  lookup-insert bytes_eq bytes_eq_iff a b (new_member codec from) r.members,
  length-insert bytes_eq a (new_member codec from) r.members,
  length-insert bytes_eq b (new_member codec from)
      (insert bytes_eq a (new_member codec from) r.members),
)
