-- ===== src/Punch/Room/Trust.antt =====
-- pkg/punch/room.go and roomjoin.go: what a roster, an introduction or a hello can do to a member
-- who is in the room already.
use vapora.Base.{
  ◌≡◌, inl, inr, refl, Option, none, some, List, [], ◌∷◌, ◌++◌, ap, leb, length, arith, Bytes,
  bytes_eq, bytes_eq_iff, Option-cases, Bool-cases, Result-cases,
}
use vapora.Base.Dict.{lookup, lookup-insert}
use vapora.Net.{UdpAddr}
use vapora.Punch.Frame.{Rand}
use vapora.Punch.Roster.{Entry, entry_candidates, parse_roster}
use vapora.Punch.Candidates.{Candidates, consider}
use vapora.Punch.Candidates.Rotation.{
  Extends, Extends-refl, Extends-trans, taken_in, consider-Extends,
}
use vapora.Punch.Codec.{SecretCodec, Opened}
use vapora.Punch.Room.{Room, Member, suggest, new_member, admit, ensure_member, Pairing}
use vapora.Punch.Room.Receive.{
  suggest_all, merge_entry, merge_entries, merge, room_frame, hello_local, hello_key, take_local,
  greet_hello, greet_frame,
}

-- A member is still there with the same codec, the same session and the same candidate in use, and
-- the addresses to try are those from before with others behind them, at most four in all if there
-- were not more.
abbrev pub Untouched : Option Member → Option Member → Type 0
Untouched none after = Unit
Untouched (some m) after =
    (cs : Candidates) × (added : List UdpAddr) × (after ≡ some (record m { candidates = cs }))
    × Extends m.candidates added cs

Untouched-refl : (o : Option Member) → Untouched o o
Untouched-refl none = tt
Untouched-refl (some m) = (m.candidates, [], refl, Extends-refl m.candidates)

Untouched-trans : (o p q : Option Member) → Untouched o p → Untouched p q → Untouched o q
Untouched-trans none p q h g = tt
Untouched-trans (some m) none q (cs, xs, e, x) g = absurd cc
Untouched-trans (some m) (some n) q (cs, xs, e, x) (ds, ys, f, y) =
    let same : n ≡ record m { candidates = cs } = cc in
    let kept : n.candidates ≡ cs = ap (λ (t : Member). t.candidates) same in
    (ds, xs ++ ys, rw same at f, Extends-trans m.candidates cs ds xs ys x (rw kept at y))

Untouched-suggest :
    (r : Room) (key who : Bytes) (addr : Option UdpAddr)
    → Untouched (lookup bytes_eq who r.members) (lookup bytes_eq who (suggest r key addr).members)
unfolding suggest
Untouched-suggest r key who addr = elim (Option-cases (lookup bytes_eq key r.members)) [
  | inl e ↦ rw (e, suggest) (Untouched-refl (lookup bytes_eq who r.members))
  | inr (m, e) ↦
      rw (e, suggest)
        (rw
          (lookup-insert bytes_eq bytes_eq_iff key who
            (record m { candidates = (consider m.candidates addr).0 }) r.members)
          (elim (Bool-cases (bytes_eq key who)) [
            | inl same ↦
                let found : lookup bytes_eq who r.members ≡ some m =
                  ground (arith, e, bytes_eq_iff key who) in
                rw (same, found)
                  (
                    (consider m.candidates addr).0,
                    taken_in m.candidates addr,
                    refl,
                    consider-Extends m.candidates addr,
                  )
            | inr other ↦ rw other (Untouched-refl (lookup bytes_eq who r.members))
          ]))
]

Untouched-suggest_all :
    (r : Room) (key who : Bytes) (as' : List UdpAddr)
    → Untouched
        (lookup bytes_eq who r.members)
        (lookup bytes_eq who (suggest_all r key as').members)
unfolding suggest_all
Untouched-suggest_all r key who [] = Untouched-refl (lookup bytes_eq who r.members)
Untouched-suggest_all r key who (a ∷ as') =
    Untouched-trans _ _ _ (Untouched-suggest r key who (some a))
      (Untouched-suggest_all (suggest r key (some a)) key who as')

Untouched-admit :
    (r : Room) (key who : Bytes) (addr : Option UdpAddr) (codec : SecretCodec)
    → lookup bytes_eq key r.members ≡ none
    → Untouched
        (lookup bytes_eq who r.members)
        (lookup bytes_eq who (admit r key addr codec).members)
unfolding admit
Untouched-admit r key who addr codec new =
    rw (lookup-insert bytes_eq bytes_eq_iff key who (new_member codec addr) r.members)
      (elim (Bool-cases (bytes_eq key who)) [
        | inl same ↦
            let absent : lookup bytes_eq who r.members ≡ none =
              ground (arith, new, bytes_eq_iff key who) in
            rw (same, absent) tt
        | inr other ↦ rw other (Untouched-refl (lookup bytes_eq who r.members))
      ])

Untouched-ensure_member :
    (pair : Pairing) (r : Room) (key who : Bytes) (addr : Option UdpAddr)
    → Untouched
        (lookup bytes_eq who r.members)
        (lookup bytes_eq who (ensure_member pair r key addr).0.members)
unfolding ensure_member
Untouched-ensure_member pair r key who addr =
    let stays = Untouched-refl (lookup bytes_eq who r.members) in
    elim (Bool-cases (bytes_eq key r.public_key)) [
      | inl self ↦ rw self stays
      | inr ne ↦ elim (Option-cases (lookup bytes_eq key r.members)) [
        | inr (m, known) ↦ rw (ne, known) (Untouched-suggest r key who addr)
        | inl new ↦ elim (Bool-cases (leb r.max (length r.members))) [
          | inl full ↦ rw (ne, new, full) stays
          | inr room ↦ elim (Option-cases (pair key)) [
            | inl e ↦ rw (ne, new, room, e) stays
            | inr (codec, e) ↦ rw (ne, new, room, e) (Untouched-admit r key who addr codec new)
          ]
        ]
      ]
    ]

Untouched-merge_entry :
    (pair : Pairing) (r : Room) (e : Entry) (who : Bytes)
    → Untouched (lookup bytes_eq who r.members) (lookup bytes_eq who (merge_entry pair r e).members)
unfolding merge_entry
Untouched-merge_entry pair r e who =
    let met = ensure_member pair r e.key e.addr in
    let first = Untouched-ensure_member pair r e.key who e.addr in
    elim (Bool-cases (bytes_eq e.key r.public_key)) [
      | inl self ↦ rw self (Untouched-refl (lookup bytes_eq who r.members))
      | inr ne ↦ elim (Result-cases met.1) [
        | inl (error, h) ↦ rw (ne, h) first
        | inr (fresh, h) ↦
            rw (ne, h)
              (Untouched-trans _ _ _ first
                (Untouched-suggest_all met.0 e.key who (entry_candidates e)))
      ]
    ]

Untouched-merge_entries :
    (pair : Pairing) (r : Room) (es : List Entry) (who : Bytes)
    → Untouched
        (lookup bytes_eq who r.members)
        (lookup bytes_eq who (merge_entries pair r es).members)
unfolding merge_entries
Untouched-merge_entries pair r [] who = Untouched-refl (lookup bytes_eq who r.members)
Untouched-merge_entries pair r (e ∷ es) who =
    Untouched-trans _ _ _ (Untouched-merge_entry pair r e who)
      (Untouched-merge_entries pair (merge_entry pair r e) es who)

Untouched-merge :
    (pair : Pairing) (r : Room) (payload who : Bytes)
    → Untouched (lookup bytes_eq who r.members) (lookup bytes_eq who (merge pair r payload).members)
unfolding merge
Untouched-merge pair r payload who = elim (Result-cases (parse_roster payload r.max)) [
  | inl (e, h) ↦ rw (h, merge) (Untouched-refl (lookup bytes_eq who r.members))
  | inr (es, h) ↦ rw (h, merge) (Untouched-merge_entries pair r es who)
]

-- Whatever a member says about the room over its pair channel, nobody who is in the room is removed
-- by it, or has their session, their codec or the candidate in use changed: the addresses to try are
-- all kept in their places, and others' word only adds to them, behind them and up to four in all.
pub Untouched-room_frame :
    (pair : Pairing) (r : Room) (f : Opened) (who : Bytes)
    → Untouched (lookup bytes_eq who r.members) (lookup bytes_eq who (room_frame pair r f).members)
unfolding room_frame
Untouched-room_frame pair r f who =
    ground
      (arith, Untouched-refl (lookup bytes_eq who r.members), Untouched-merge pair r f.payload who)

Untouched-take_local :
    (r : Room) (key payload who : Bytes)
    → Untouched
        (lookup bytes_eq who r.members)
        (lookup bytes_eq who (take_local r key payload).members)
unfolding take_local
Untouched-take_local r key payload who = elim (Option-cases (hello_local payload)) [
  | inl e ↦ rw (e, take_local) (Untouched-refl (lookup bytes_eq who r.members))
  | inr (a, e) ↦ rw (e, take_local) (Untouched-suggest r key who (some a))
]

-- Nor does any frame sealed under the room's key, which everybody with the invite holds: it may add
-- a member or an address to try.
pub Untouched-greet_frame :
    (pair : Pairing) (r : Room) (f : Opened) (from : UdpAddr) (rand rand' : Rand) (who : Bytes)
    → Untouched
        (lookup bytes_eq who r.members)
        (lookup bytes_eq who (greet_frame pair r f from rand rand').0.members)
unfolding greet_frame greet_hello
Untouched-greet_frame pair r f from rand rand' who =
    let stays = Untouched-refl (lookup bytes_eq who r.members) in
    elim (Option-cases (hello_key f.payload)) [
      | inl e ↦ ground (arith, stays)
      | inr (key, e) ↦
          let local = take_local r key f.payload in
          let both =
            Untouched-trans _ _ _ (Untouched-take_local r key f.payload who)
              (Untouched-ensure_member pair local key who (some from)) in
          ground (arith, stays, both)
    ]
