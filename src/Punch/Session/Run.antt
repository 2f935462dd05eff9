-- ===== src/Punch/Session/Run.antt =====
-- Histories of a session of pkg/punch: every method that changes it, in any order.
use vapora.Base.{ℕ, false, Option, List, [], ◌∷◌, ◌++◌, Bytes}
use vapora.Net.{UdpAddr}
use vapora.Punch.Frame.{Rand}
use vapora.Punch.Codec.{Opened}
use vapora.Punch.Session.{Session, Effect, set_peer, heard, record_probe}
use vapora.Punch.Session.Deliver.{deliver_opened, send_payload, ping_round, punch_round, goodbye}

pub data Event : Type 0 where
  -- A datagram that opened, from an address.
  arrives : Opened → UdpAddr → ℕ → Rand → Event
  -- A datagram that did not open.
  rejects : UdpAddr → ℕ → Event
  -- The caller sends, aims, or leaves, and the loops make a round.
  says : Bytes → Event
  aims : Option UdpAddr → Event
  leaves : Rand → Event
  starts : ℕ → Event
  pings : ℕ → Rand → Rand → Event
  punches : Rand → Event

unfoldable pub step : Session → Event → Session × List Effect
step s (arrives frame from now rand) =
    let (s', taken, effects) = deliver_opened s frame from now rand in (s', effects)
step s (rejects from now) = (record_probe s from false now, [])
step s (says payload) = send_payload s payload
step s (aims peer) = (set_peer s peer, [])
step s (leaves rand) = (s, goodbye s rand)
step s (starts now) = (heard s now, [])
step s (pings now rand rand') =
    let (s', delay, effects) = ping_round s now rand rand' in (s', effects)
step s (punches rand) = (s, punch_round s rand)

unfoldable pub run : Session → List Event → Session × List Effect
run s [] = (s, [])
run s (e ∷ es) = let (s', first) = step s e in let (s'', later) = run s' es in (s'', first ++ later)
