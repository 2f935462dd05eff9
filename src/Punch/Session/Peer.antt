-- ===== src/Punch/Session/Peer.antt =====
-- pkg/punch/session.go: who may become, or replace, the peer of a session.
use vapora.Base.{
  ℕ, ◌+◌, ◌%◌, ◌^◌, ◌≡◌, ◌⊎◌, refl, Bool, true, false, not, ◌&&◌, ◌||◌, some, List, [], ◌∷◌, ◌++◌,
  if◌then◌else◌, arith, Bytes, bytes_eq, Option-cases, All,
}
use vapora.Net.{UdpAddr, addr_eq}
use vapora.Punch.Frame.{Rand, pad, kind_ping, kind_punch, kind_bye, kind_data}
use vapora.Punch.Codec.{Opened}
use vapora.Punch.Session.{
  Session, Effect, record_probe, record_in, accept, accept_elsewhere, moved_to, heard, health,
  is_alive, send,
}
use vapora.Punch.Session.Deliver.{
  deliver_opened, take_frame, handle, receive_pong, send_payload, send_ping, backoff, ping_round,
  goodbye, punch_round, sequence_payload,
}
use vapora.Punch.Session.Run.{
  Event, arrives, rejects, says, aims, leaves, starts, pings, punches, step, run,
}

-- The rule for following an open path to another address: it has gone quiet, and the frame is
-- from the sender pinned before, if any was.
abbrev pub may_follow : Session → Bytes → ℕ → Bool
may_follow s sender now =
    not (is_alive (health s now).link) && (not s.known_sender || bytes_eq s.peer_sender sender)

record_probe_fields :
    (s : Session) (from : UdpAddr) (auth : Bool) (now : ℕ)
    → let t = record_probe s from auth now in
      (t.peer ≡ s.peer)
      × (t.moves ≡ s.moves)
      × (t.is_open ≡ s.is_open)
      × (t.known_sender ≡ s.known_sender)
      × (t.peer_sender ≡ s.peer_sender)
      × (t.pending ≡ s.pending)
      × (t.probes.impostors ≡ (if auth then s.probes.impostors + 1 else s.probes.impostors))
unfolding record_probe record_in
record_probe_fields s from auth now = ground (arith, Option-cases s.probes.sources)

handle_fields :
    (s : Session) (f : Opened) (now : ℕ) (rand : Rand)
    → let t = (handle s f now rand).0 in
      (t.peer ≡ s.peer)
      × (t.moves ≡ s.moves)
      × (t.is_open ≡ s.is_open)
      × (t.known_sender ≡ s.known_sender)
      × (t.peer_sender ≡ s.peer_sender)
      × (t.pending ≡ s.pending)
      × (t.probes ≡ s.probes)
unfolding handle receive_pong
handle_fields s f now rand = ground arith

-- What an authenticated frame from an address other than the peer's does to an open path.
abbrev pub Elsewhere :
    Session → UdpAddr → Opened → UdpAddr → ℕ → Session × Bool × List Effect → Type 0
Elsewhere s peer frame from now (t, taken, effects) =
    let follows = may_follow s frame.sender now in
    (taken ≡ follows)
    × (t.peer ≡ some (if follows then from else peer))
    × (t.moves ≡ (if follows then s.moves + 1 else s.moves))
    × (t.peer_sender ≡ (if follows then frame.sender else s.peer_sender))
    × (t.known_sender ≡ (if follows then true else s.known_sender))
    × (t.is_open ≡ true)
    × (t.probes.impostors ≡ s.probes.impostors + 1)
    × ((follows ≡ true) ⊎ (effects ≡ []))

accept_elsewhere-lem :
    (s : Session) (peer from : UdpAddr) (sender : Bytes) (now : ℕ)
    → s.peer ≡ some peer
    → let (t, accepted) = accept_elsewhere s from sender now in
      let follows = may_follow s sender now in
      (accepted ≡ follows)
      × (t.peer ≡ some (if follows then from else peer))
      × (t.moves ≡ (if follows then s.moves + 1 else s.moves))
      × (t.peer_sender ≡ (if follows then sender else s.peer_sender))
      × (t.known_sender ≡ (if follows then true else s.known_sender))
      × (t.is_open ≡ s.is_open)
      × (t.probes.impostors ≡ s.probes.impostors + 1)
unfolding accept_elsewhere
accept_elsewhere-lem s peer from sender now e = ground (
  arith,
  record_probe_fields s from true now,
  record_probe_fields (moved_to s from sender) from true now,
)

-- A frame that opened but came from another address is counted as an impostor's; it is followed
-- exactly when the path has gone quiet and the sender is the one pinned (or none is). If it is not
-- followed, the peer, the pinned sender and the count of moves stay, and nothing is delivered or
-- sent.
pub deliver_opened-Elsewhere :
    (s : Session) (peer : UdpAddr) (frame : Opened) (from : UdpAddr) (now : ℕ) (rand : Rand)
    → s.is_open ≡ true
    → s.peer ≡ some peer
    → addr_eq peer from ≡ false
    → Elsewhere s peer frame from now (deliver_opened s frame from now rand)
unfolding deliver_opened take_frame accept
deliver_opened-Elsewhere s peer frame from now rand o e ne = ground (
  arith,
  accept_elsewhere-lem s peer from frame.sender now e,
  handle_fields (heard (accept_elsewhere s from frame.sender now).0 now) frame now rand,
)

-- Everything but a frame from the peer's address or under the pinned sender, and a new aim.
abbrev pub IsForeign : UdpAddr → Bytes → Event → Type 0
IsForeign peer sender (arrives frame from now rand) =
    (addr_eq peer from ≡ false) × (bytes_eq sender frame.sender ≡ false)
IsForeign peer sender (aims to) = ⊥
IsForeign peer sender _ = Unit

-- What reached the caller, or the room's own protocol.
abbrev pub reaches_caller : List Effect → Bool
reaches_caller [] = false
reaches_caller (Effect.sends k p to ∷ es) = reaches_caller es
reaches_caller (Effect.first_contact ∷ es) = reaches_caller es
reaches_caller (Effect.delivers p ∷ es) = true
reaches_caller (Effect.extras f ∷ es) = true

-- A path open to `peer` under `sender`.
pub record HeldBy (peer : UdpAddr) (sender : Bytes) (moves : ℕ) (s : Session) : Type 0 where
  pub open_is : s.is_open ≡ true
  pub peer_is : s.peer ≡ some peer
  pub known_is : s.known_sender ≡ true
  pub sender_is : s.peer_sender ≡ sender
  pub moves_is : s.moves ≡ moves

reaches_caller-append :
    (es fs : List Effect)
    → reaches_caller es ≡ false
    → reaches_caller fs ≡ false
    → reaches_caller (es ++ fs) ≡ false
reaches_caller-append [] fs h g = g
reaches_caller-append (Effect.sends k p to ∷ es) fs h g = reaches_caller-append es fs h g
reaches_caller-append (Effect.first_contact ∷ es) fs h g = reaches_caller-append es fs h g
reaches_caller-append (Effect.delivers p ∷ es) fs h g = cc
reaches_caller-append (Effect.extras f ∷ es) fs h g = cc

send-reaches_caller : (s : Session) (k : ℕ) (p : Bytes) → reaches_caller (send s k p) ≡ false
unfolding send
send-reaches_caller s k p = ground (arith, Option-cases s.peer)

abbrev pub Keeps : UdpAddr → Bytes → ℕ → Session × List Effect → Type 0
Keeps peer sender moves (t, effects) = HeldBy peer sender moves t × (reaches_caller effects ≡ false)

-- A stranger is not followed.
foreign_stays :
    (s : Session) (sender other : Bytes) (now : ℕ)
    → s.known_sender ≡ true
    → s.peer_sender ≡ sender
    → bytes_eq sender other ≡ false
    → may_follow s other now ≡ false
foreign_stays s sender other now k e ne = ground arith

ping_round-Keeps :
    (peer : UdpAddr) (sender : Bytes) (moves : ℕ) (s : Session) (now : ℕ) (rand rand' : Rand)
    → HeldBy peer sender moves s
    → HeldBy peer sender moves (ping_round s now rand rand').0
      × (reaches_caller (ping_round s now rand rand').2 ≡ false)
unfolding ping_round send_ping backoff
ping_round-Keeps peer sender moves s now rand rand' v =
    let seq = (s.ping_seq + 1) % 2 ^ 64 in
    let s' = record s { ping_seq = seq; ping_sent_at = now } in
    let ping = send s' kind_ping (sequence_payload rand seq) in
    let punch = send s' kind_punch (pad rand') in
    ground (
      arith,
      v,
      send-reaches_caller s' kind_ping (sequence_payload rand seq),
      reaches_caller-append ping punch
          (send-reaches_caller s' kind_ping (sequence_payload rand seq))
          (send-reaches_caller s' kind_punch (pad rand')),
    )

step-Keeps :
    (peer : UdpAddr) (sender : Bytes) (moves : ℕ) (s : Session) (e : Event)
    → HeldBy peer sender moves s
    → IsForeign peer sender e
    → Keeps peer sender moves (step s e)
unfolding step send_payload goodbye punch_round
step-Keeps peer sender moves s (arrives f from now rand) v (ne, other) = ground (
  arith,
  v,
  foreign_stays s sender f.sender now v.known_is v.sender_is other,
  deliver_opened-Elsewhere s peer f from now rand v.open_is v.peer_is ne,
)
step-Keeps peer sender moves s (rejects from now) v h =
    ground (arith, v, record_probe_fields s from false now)
step-Keeps peer sender moves s (says payload) v h =
    ground (arith, v, send-reaches_caller s kind_data payload)
step-Keeps peer sender moves s (aims to) v h = absurd h
step-Keeps peer sender moves s (leaves rand) v h = (v, send-reaches_caller s kind_bye (pad rand))
step-Keeps peer sender moves s (starts now) v h = ground (arith, v)
step-Keeps peer sender moves s (pings now rand rand') v h =
    ping_round-Keeps peer sender moves s now rand rand' v
step-Keeps peer sender moves s (punches rand) v h = (v, send-reaches_caller s kind_punch (pad rand))

-- However many frames strangers with the invite send from other addresses, at whatever times, and
-- whatever the session itself does meanwhile, the peer of an open path is not replaced, the pinned
-- sender stays, no move is counted, and nothing of theirs reaches the caller.
pub run-Keeps :
    (peer : UdpAddr) (sender : Bytes) (moves : ℕ) (s : Session) (es : List Event)
    → HeldBy peer sender moves s
    → All (IsForeign peer sender) es
    → Keeps peer sender moves (run s es)
unfolding run
run-Keeps peer sender moves s [] v h = (v, refl)
run-Keeps peer sender moves s (e ∷ es) v (h, hs) =
    let (v', first) = step-Keeps peer sender moves s e v h in
    let (v'', later) = run-Keeps peer sender moves (step s e).0 es v' hs in
    (v'', reaches_caller-append (step s e).1 (run (step s e).0 es).1 first later)
