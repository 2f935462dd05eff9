-- ===== src/Punch/Session/Tests.antt =====
-- Concrete sessions of pkg/punch/session.go: a path opens, is held, goes quiet and is followed.
use vapora.Base.{◌≡◌, inl, refl, true, none, some, List, [], ◌∷◌, Bytes, bytes_eq}
use vapora.Net.{v4, UdpAddr, addr_eq, ip_eq}
use vapora.Punch.Frame.{Rand, kind_punch, kind_data}
use vapora.Punch.Codec.{Opened}
use vapora.Punch.Session.{Session, new_session}
use vapora.Punch.Session.Deliver.{deliver_opened}
use vapora.Punch.Session.Run.{Event, arrives, rejects, says, pings, run}
use vapora.Punch.Session.Invariant.{Inv, run-new_session-Inv}
use vapora.Punch.Session.Peer.{Elsewhere, deliver_opened-Elsewhere, Keeps, run-Keeps}
use vapora.Punch.Session.Eager.{say_all, Opens, deliver_opened-say_all}

abbrev home : UdpAddr
home = record { ip = v4 203 0 113 7; port = 4000 }

abbrev elsewhere : UdpAddr
elsewhere = record { ip = v4 198 51 100 9; port = 5000 }

-- No randomness: filler is empty.
abbrev bare : Rand
bare = record { two = none; fill = λ n. none }

abbrev ours : Bytes
ours = 1 ∷ 2 ∷ 3 ∷ 4 ∷ []

abbrev theirs : Bytes
theirs = 9 ∷ 9 ∷ 9 ∷ 9 ∷ []

abbrev punch_from : Bytes → Opened
punch_from sender = record { kind = kind_punch; payload = []; sender = sender }

abbrev data_from : Bytes → Opened
data_from sender = record { kind = kind_data; payload = b'x' ∷ []; sender = sender }

abbrev held : Session
held = record new_session {
  peer = some home;
  is_open = true;
  last_heard = some 1_000;
  known_sender = true;
  peer_sender = ours;
}

abbrev history : List Event
history =
    says (b'a' ∷ [])
    ∷ arrives (punch_from ours) home 5 bare
    ∷ rejects elsewhere 6
    ∷ pings 50_000_000_000 bare bare
    ∷ arrives (data_from ours) elsewhere 60_000_000_000 bare
    ∷ []

run-new_session-Inv_example : Inv (run new_session history).0
run-new_session-Inv_example = run-new_session-Inv history

deliver_opened-Elsewhere_example :
    Elsewhere held home
      (data_from ours)
      elsewhere
      50_000_000_000
      (deliver_opened held (data_from ours) elsewhere 50_000_000_000 bare)
unfolding addr_eq ip_eq
deliver_opened-Elsewhere_example =
    deliver_opened-Elsewhere held home (data_from ours) elsewhere 50_000_000_000 bare refl refl refl

run-Keeps_example :
    Keeps home ours 0
      (run held (arrives (data_from theirs) elsewhere 90_000_000_000 bare ∷ says (b'a' ∷ []) ∷ []))
unfolding bytes_eq addr_eq ip_eq
run-Keeps_example =
    run-Keeps home ours 0 held
      (arrives (data_from theirs) elsewhere 90_000_000_000 bare ∷ says (b'a' ∷ []) ∷ [])
      (record {
        open_is = refl;
        peer_is = refl;
        known_is = refl;
        sender_is = refl;
        moves_is = refl;
      })
      ((refl, refl), (tt, tt))

deliver_opened-say_all_example :
    ((say_all new_session ((b'a' ∷ []) ∷ (b'b' ∷ []) ∷ [])).1 ≡ [])
    × Opens ((b'a' ∷ []) ∷ (b'b' ∷ []) ∷ []) (punch_from ours) home bare (
        deliver_opened
          (say_all new_session ((b'a' ∷ []) ∷ (b'b' ∷ []) ∷ [])).0
          (punch_from ours)
          home
          5
          bare)
deliver_opened-say_all_example =
    deliver_opened-say_all new_session ((b'a' ∷ []) ∷ (b'b' ∷ []) ∷ []) (punch_from ours) home 5
      bare refl (inl refl)
