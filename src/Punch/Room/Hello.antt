-- ===== src/Punch/Room/Hello.antt =====
-- pkg/punch/candidates.go and roomjoin.go: what a hello says is what the greeter reads.
use vapora.Base.{
  ◌≡◌, refl, Option, some, [], ◌∷◌, ◌++◌, append_assoc, length, take-append, drop-append,
  length-append, arith, Bytes,
}
use vapora.Net.{UdpAddr}
use vapora.Punch.Frame.{Rand, padded, kind_hello}
use vapora.Punch.Frame.Padding.{padded-append}
use vapora.Punch.Roster.{candidate, public_key_size}
use vapora.Punch.Roster.RoundTrip.{carried, HasPort, read_candidate-candidate, length-candidate}
use vapora.Punch.Room.{Room, room_sends}
use vapora.Punch.Room.Receive.{hello_key, hello_local}
use vapora.Punch.Room.Talk.{say_hello}

-- A hello of 32 bytes of key, an address and any filler.
hello_key-append :
    (key : Bytes) (local : Option UdpAddr) (filler : Bytes)
    → length key ≡ 32
    → HasPort local
    → (hello_key ((key ++ candidate local) ++ filler) ≡ some key)
      × (hello_local ((key ++ candidate local) ++ filler) ≡ carried local)
unfolding hello_key hello_local
hello_key-append key local filler h p =
    let parts = append_assoc key (candidate local) filler in
    rw parts (
      rw (take-append key (candidate local ++ filler) 32 h) (ground (arith)),
      rw
          (
            drop-append key (candidate local ++ filler) 32 h,
            take-append (candidate local) filler 6 (length-candidate local),
            read_candidate-candidate local p,
          )
          (ground (
            arith,
            length-append key (candidate local ++ filler),
            length-append (candidate local) filler,
            length-candidate local,
          )),
    )

-- Whatever filler was drawn, the greeter reads the newcomer's own key out of its hello, and its
-- local address if that is an IPv4 address and a port other than zero.
pub say_hello-hello_key :
    (r : Room) (to : UdpAddr) (rand : Rand)
    → length r.public_key ≡ public_key_size
    → HasPort r.local
    → (payload : Bytes) × (say_hello r to rand ≡ room_sends kind_hello payload to ∷ [])
      × (hello_key payload ≡ some r.public_key)
      × (hello_local payload ≡ carried r.local)
unfolding say_hello
say_hello-hello_key r to rand h p =
    let (filler, e) = padded-append rand (r.public_key ++ candidate r.local) in
    let (key, local) = hello_key-append r.public_key r.local filler h p in
    (padded rand (r.public_key ++ candidate r.local), refl, rw e key, rw e local)
