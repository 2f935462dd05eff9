-- ===== src/Punch/Room/Received.antt =====
-- pkg/punch/room.go and roomjoin.go: a datagram keeps a room well formed.
use vapora.Base.{
  ℕ, inl, inr, some, List, [], ◌∷◌, arith, Bytes, bytes_eq, Option-cases, Result, ok, err,
}
use vapora.Base.Dict.{lookup}
use vapora.Net.{UdpAddr}
use vapora.Punch.Frame.{Rand}
use vapora.Punch.Codec.{Crypto, SecretCodec, CodecError, Opened, open_wire}
use vapora.Punch.Session.Deliver.{deliver}
use vapora.Punch.Session.Invariant.{deliver-Inv}
use vapora.Punch.Mux.{Mux}
use vapora.Punch.Mux.Claims.{dispatch_keeps}
use vapora.Punch.Room.{Room, Member, Sink, Act, Pairing}
use vapora.Punch.Room.Invariant.{
  RoomInv, found-IsSound, update-RoomInv, suggest-RoomInv, ensure_member-RoomInv, obey-RoomInv,
}
use vapora.Punch.Room.Receive.{
  take_local, greet_outcome, hello_local, hello_key, greet_hello, greet_frame, greet,
  receive_member, adopt_among, adopt, sink_deliver, receive,
}

module _ (crypto : Crypto) (pair : Pairing) where
  receive_member-RoomInv :
      (r : Room) (key payload : Bytes) (from : UdpAddr) (now : ℕ) (rand : Rand)
      → RoomInv r
      → RoomInv (receive_member crypto pair r key payload from now rand).0
  unfolding receive_member
  receive_member-RoomInv r key payload from now rand v =
      elim (Option-cases (lookup bytes_eq key r.members)) [
        | inl e ↦ rw (e, receive_member) v
        | inr (m, e) ↦
            let (c, s) = found-IsSound key m r.members v.sound e in
            let got = deliver crypto (m.codec, m.session) payload from now rand in
            rw (e, receive_member)
              (obey-RoomInv pair _ got.2 (
                update-RoomInv r key m (record m { codec = got.0.0; session = got.0.1 }) v e c
                  (deliver-Inv crypto m.codec m.session payload from now rand s)))
      ]

  adopt_among-RoomInv :
      (r : Room) (ms : List (Bytes × Member)) (payload : Bytes) (from : UdpAddr) (now : ℕ)
      (rand : Rand)
      → RoomInv r
      → RoomInv (adopt_among crypto pair r ms payload from now rand).0
  unfolding adopt_among
  adopt_among-RoomInv r [] payload from now rand v = v
  adopt_among-RoomInv r ((key, m) ∷ ms) payload from now rand v =
      let w = receive_member-RoomInv r key payload from now rand v in
      ground (
        arith,
        w,
        adopt_among-RoomInv (receive_member crypto pair r key payload from now rand).0 ms payload
            from now rand w,
      )

  take_local-RoomInv :
      (r : Room) (key payload : Bytes) → RoomInv r → RoomInv (take_local r key payload)
  unfolding take_local
  take_local-RoomInv r key payload v = elim (Option-cases (hello_local payload)) [
    | inl e ↦ rw (e, take_local) v
    | inr (local, e) ↦ rw (e, take_local) (suggest-RoomInv r key (some local) v)
  ]

  greet_frame-RoomInv :
      (r : Room) (f : Opened) (from : UdpAddr) (rand rand' : Rand)
      → RoomInv r
      → RoomInv (greet_frame pair r f from rand rand').0
  unfolding greet_frame greet_hello
  greet_frame-RoomInv r f from rand rand' v = elim (Option-cases (hello_key f.payload)) [
    | inl e ↦ ground (arith, v)
    | inr (key, e) ↦ ground (
      arith,
      v,
      ensure_member-RoomInv pair (take_local r key f.payload) key (some from)
          (take_local-RoomInv r key f.payload v),
    )
  ]

  greet_outcome-RoomInv :
      (r : Room) (outcome : Result CodecError Opened) (from : UdpAddr) (rand rand' : Rand)
      → RoomInv r
      → RoomInv (greet_outcome pair r outcome from rand rand').0
  unfolding greet_outcome
  greet_outcome-RoomInv r (err e) from rand rand' v = v
  greet_outcome-RoomInv r (ok f) from rand rand' v = greet_frame-RoomInv r f from rand rand' v

  recoded-RoomInv :
      (r : Room) (code : SecretCodec) → RoomInv r → RoomInv (record r { room_code = code })
  recoded-RoomInv r code v = record {
    distinct = v.distinct;
    no_self = v.no_self;
    small = v.small;
    sound = v.sound;
  }

  pub remuxed-RoomInv : (r : Room) (mux : Mux Sink) → RoomInv r → RoomInv (record r { mux = mux })
  remuxed-RoomInv r mux v = record {
    distinct = v.distinct;
    no_self = v.no_self;
    small = v.small;
    sound = v.sound;
  }

  sink_deliver-RoomInv :
      (now : ℕ) (rand rand' : Rand) (sink : Sink) (payload : Bytes) (from : UdpAddr)
      (w : Room × List Act)
      → RoomInv w.0
      → RoomInv (sink_deliver crypto pair now rand rand' sink payload from w).0.0
  unfolding sink_deliver greet adopt
  sink_deliver-RoomInv now rand rand' (Sink.member_sink key) payload from (r, acts) v =
      receive_member-RoomInv r key payload from now rand v
  sink_deliver-RoomInv now rand rand' Sink.greet_sink payload from (r, acts) v =
      let (code, outcome) = open_wire crypto r.room_code payload in
      greet_outcome-RoomInv (record r { room_code = code }) outcome from rand rand'
        (recoded-RoomInv r code v)
  sink_deliver-RoomInv now rand rand' Sink.adopt_sink payload from (r, acts) v =
      adopt_among-RoomInv r r.members payload from now rand v

  pub receive-RoomInv :
      (r : Room) (payload : Bytes) (from : UdpAddr) (now : ℕ) (rand rand' : Rand)
      → RoomInv r
      → RoomInv (receive crypto pair r payload from now rand rand').0
  unfolding receive
  receive-RoomInv r payload from now rand rand' v =
      dispatch_keeps (sink_deliver crypto pair now rand rand') (λ w. RoomInv w.0)
        (λ sink w h. sink_deliver-RoomInv now rand rand' sink payload from w h) r.mux (r, []) v
