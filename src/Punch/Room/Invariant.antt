-- ===== src/Punch/Room/Invariant.antt =====
-- pkg/punch/room.go: who is in a room, after any history of it.
use vapora.Base.{
  ◌≤◌, ◌<◌, ◌≡◌, ◌⊎◌, inl, inr, refl, ◌∙◌, true, false, Option, none, some, List, [], ◌∷◌, leb,
  is_some, length, All, arith, Bytes, bytes_eq, bytes_eq_iff, Option-cases, Bool-cases,
  Result-cases,
}
use vapora.Base.Dict.{lookup, insert, lookup-insert, length-insert}
use vapora.Net.{UdpAddr}
use vapora.Punch.Roster.{Entry, entry_candidates, parse_roster}
use vapora.Punch.Candidates.Rotation.{IsValid, consider-IsValid, new_candidates-IsValid}
use vapora.Punch.Codec.{SecretCodec, Opened}
use vapora.Punch.Session.{Effect}
use vapora.Punch.Session.Invariant.{Inv, set_peer-new_session-Inv}
use vapora.Punch.Room.{Room, Member, put_member, suggest, new_member, admit, ensure_member, Pairing}
use vapora.Punch.Room.Receive.{suggest_all, merge_entry, merge_entries, merge, room_frame, obey}

abbrev pub DistinctKeys : List (Bytes × Member) → Type 0
DistinctKeys [] = Unit
DistinctKeys ((key, m) ∷ ms) = (lookup bytes_eq key ms ≡ none) × DistinctKeys ms

abbrev pub IsSound : Bytes × Member → Type 0
IsSound (key, m) = IsValid m.candidates × Inv m.session

pub record RoomInv (r : Room) : Type 0 where
  -- One session a key, and none with oneself.
  pub distinct : DistinctKeys r.members
  pub no_self : lookup bytes_eq r.public_key r.members ≡ none
  pub small : length r.members ≤ r.max
  pub sound : All IsSound r.members

DistinctKeys-insert :
    (key : Bytes) (m : Member) (ms : List (Bytes × Member))
    → DistinctKeys ms
    → DistinctKeys (insert bytes_eq key m ms)
DistinctKeys-insert key m [] d = (refl, tt)
DistinctKeys-insert key m ((k, n) ∷ ms) (e, d) = elim (Bool-cases (bytes_eq k key)) [
  | inl eq ↦ rw eq (e, d)
  | inr ne ↦ rw ne (
    lookup-insert bytes_eq bytes_eq_iff key k m ms
        ∙ ground (arith, bytes_eq_iff key k, bytes_eq_iff k key),
    DistinctKeys-insert key m ms d,
  )
]

IsSound-insert :
    (key : Bytes) (m : Member) (ms : List (Bytes × Member))
    → IsSound (key, m)
    → All IsSound ms
    → All IsSound (insert bytes_eq key m ms)
IsSound-insert key m [] v h = (v, tt)
IsSound-insert key m ((k, n) ∷ ms) v (w, h) = elim (Bool-cases (bytes_eq k key)) [
  | inl eq ↦ rw eq (v, h)
  | inr ne ↦ rw ne (w, IsSound-insert key m ms v h)
]

-- What is known of a member that is found.
pub found-IsSound :
    (key : Bytes) (m : Member) (ms : List (Bytes × Member))
    → All IsSound ms
    → lookup bytes_eq key ms ≡ some m
    → IsValid m.candidates × Inv m.session
found-IsSound key m [] h e = absurd cc
found-IsSound key m ((k, n) ∷ ms) (w, h) e = elim (Bool-cases (bytes_eq k key)) [
  | inl eq ↦ ground (arith, w)
  | inr ne ↦ found-IsSound key m ms h (ground arith)
]

-- A member's state replaced, or a new one added while there is room.
put_member-RoomInv :
    (r : Room) (key : Bytes) (m : Member)
    → RoomInv r
    → IsSound (key, m)
    → bytes_eq key r.public_key ≡ false
    → (is_some (lookup bytes_eq key r.members) ≡ true) ⊎ (length r.members < r.max)
    → RoomInv (put_member r key m)
put_member-RoomInv r key m v s ne room = record {
  distinct = DistinctKeys-insert key m r.members v.distinct;
  no_self =
      lookup-insert bytes_eq bytes_eq_iff key r.public_key m r.members ∙ ground (arith, v.no_self);
  small = ground (arith, length-insert bytes_eq key m r.members, v.small);
  sound = IsSound-insert key m r.members s v.sound;
}

other_key :
    (r : Room) (key : Bytes) (m : Member)
    → RoomInv r
    → lookup bytes_eq key r.members ≡ some m
    → bytes_eq key r.public_key ≡ false
other_key r key m v e = ground (arith, v.no_self, bytes_eq_iff key r.public_key)

pub update-RoomInv :
    (r : Room) (key : Bytes) (m n : Member)
    → RoomInv r
    → lookup bytes_eq key r.members ≡ some m
    → IsValid n.candidates
    → Inv n.session
    → RoomInv (put_member r key n)
update-RoomInv r key m n v e c s =
    put_member-RoomInv r key n v (c, s) (other_key r key m v e) (inl (rw e refl))

pub suggest-RoomInv :
    (r : Room) (key : Bytes) (addr : Option UdpAddr) → RoomInv r → RoomInv (suggest r key addr)
unfolding suggest
suggest-RoomInv r key addr v = elim (Option-cases (lookup bytes_eq key r.members)) [
  | inl e ↦ rw (e, suggest) v
  | inr (m, e) ↦
      let (c, s) = found-IsSound key m r.members v.sound e in
      rw (e, suggest) (update-RoomInv r key m _ v e (consider-IsValid m.candidates addr c) s)
]

suggest-public_key :
    (r : Room) (key : Bytes) (addr : Option UdpAddr)
    → (suggest r key addr).public_key ≡ r.public_key
unfolding suggest
suggest-public_key r key addr = ground (arith, Option-cases (lookup bytes_eq key r.members))

admit-RoomInv :
    (r : Room) (key : Bytes) (addr : Option UdpAddr) (codec : SecretCodec)
    → RoomInv r
    → bytes_eq key r.public_key ≡ false
    → length r.members < r.max
    → RoomInv (admit r key addr codec)
unfolding admit new_member
admit-RoomInv r key addr codec v ne room =
    let w =
      put_member-RoomInv r key (new_member codec addr) v
        (new_candidates-IsValid addr, set_peer-new_session-Inv addr) ne (inr room) in
    record { distinct = w.distinct; no_self = w.no_self; small = w.small; sound = w.sound }

pub ensure_member-RoomInv :
    (pair : Pairing) (r : Room) (key : Bytes) (addr : Option UdpAddr)
    → RoomInv r
    → RoomInv (ensure_member pair r key addr).0
unfolding ensure_member
ensure_member-RoomInv pair r key addr v =
    let known = suggest-RoomInv r key addr v in
    elim (Bool-cases (bytes_eq key r.public_key)) [
      | inl eq ↦ rw eq v
      | inr ne ↦ elim (Option-cases (pair key)) [
        | inl e ↦ ground (arith, v, known)
        | inr (codec, e) ↦ elim (Bool-cases (leb r.max (length r.members))) [
          | inl full ↦ ground (arith, v, known)
          | inr room ↦
              unfold ensure_member in
              ground (arith, v, known, admit-RoomInv r key addr codec v ne (ground arith))
        ]
      ]
    ]

pub suggest_all-RoomInv :
    (r : Room) (key : Bytes) (as' : List UdpAddr) → RoomInv r → RoomInv (suggest_all r key as')
unfolding suggest_all
suggest_all-RoomInv r key [] v = v
suggest_all-RoomInv r key (a ∷ as') v =
    suggest_all-RoomInv (suggest r key (some a)) key as' (suggest-RoomInv r key (some a) v)

merge_entry-RoomInv :
    (pair : Pairing) (r : Room) (e : Entry) → RoomInv r → RoomInv (merge_entry pair r e)
unfolding merge_entry
merge_entry-RoomInv pair r e v =
    let w = ensure_member-RoomInv pair r e.key e.addr v in
    ground (
      arith,
      v,
      w,
      suggest_all-RoomInv (ensure_member pair r e.key e.addr).0 e.key (entry_candidates e) w,
    )

merge_entries-RoomInv :
    (pair : Pairing) (r : Room) (es : List Entry) → RoomInv r → RoomInv (merge_entries pair r es)
unfolding merge_entries
merge_entries-RoomInv pair r [] v = v
merge_entries-RoomInv pair r (e ∷ es) v =
    merge_entries-RoomInv pair (merge_entry pair r e) es (merge_entry-RoomInv pair r e v)

merge-RoomInv :
    (pair : Pairing) (r : Room) (payload : Bytes) → RoomInv r → RoomInv (merge pair r payload)
unfolding merge
merge-RoomInv pair r payload v = elim (Result-cases (parse_roster payload r.max)) [
  | inl (e, h) ↦ rw (h, merge) v
  | inr (es, h) ↦ rw (h, merge) (merge_entries-RoomInv pair r es v)
]

room_frame-RoomInv :
    (pair : Pairing) (r : Room) (f : Opened) → RoomInv r → RoomInv (room_frame pair r f)
unfolding room_frame
room_frame-RoomInv pair r f v = ground (arith, v, merge-RoomInv pair r f.payload v)

pub obey-RoomInv :
    (pair : Pairing) (r : Room) (es : List Effect) → RoomInv r → RoomInv (obey pair r es)
unfolding obey
obey-RoomInv pair r [] v = v
obey-RoomInv pair r (Effect.sends k p to ∷ es) v = obey-RoomInv pair r es v
obey-RoomInv pair r (Effect.delivers p ∷ es) v = obey-RoomInv pair r es v
obey-RoomInv pair r (Effect.extras f ∷ es) v =
    obey-RoomInv pair (room_frame pair r f) es (room_frame-RoomInv pair r f v)
obey-RoomInv pair r (Effect.first_contact ∷ es) v = obey-RoomInv pair r es v
