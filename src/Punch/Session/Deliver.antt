-- ===== src/Punch/Session/Deliver.antt =====
-- pkg/punch/session.go and health.go: what a session does with a datagram, with the caller's bytes,
-- and on each round of its loops.
use vapora.Base.{
  Result, ℕ, ◌+◌, ◌-◌, ◌*◌, ◌%◌, ◌^◌, Bool, true, false, not, ◌&&◌, Option, none, some, List, [],
  ◌∷◌, ◌++◌, ltb, leb, ◌==◌, if◌then◌else◌, length, Bytes, ok, err, min,
}
use vapora.Base.Wire.{put_u64, u64_at}
use vapora.Net.{UdpAddr, addr_eq}
use vapora.Punch.Frame.{
  kind_punch, kind_ack, kind_ping, kind_pong, kind_bye, kind_data, Rand, padded, pad,
}
use vapora.Punch.Codec.{Crypto, SecretCodec, CodecError, Opened, open_wire, seal}
use vapora.Punch.Session.{
  Session, Effect, sends, delivers, extras, first_contact, send, heard, depart, remember_sender,
  record_probe, accept, health, is_alive, ping_interval, recover_interval, max_recover_interval,
}

unfoldable pub sequence_payload : Rand → ℕ → Bytes
sequence_payload rand seq = padded rand (put_u64 seq)

unfoldable pub read_sequence : Bytes → Option ℕ
read_sequence payload = if ltb (length payload) 8 then none else some (u64_at payload 0)

unfoldable pub send_ping : Session → ℕ → Rand → Session × List Effect
send_ping s now rand =
    let seq = (s.ping_seq + 1) % 2 ^ 64 in
    let s' = record s { ping_seq = seq; ping_sent_at = now } in
    (s', send s' kind_ping (sequence_payload rand seq))

unfoldable pub receive_pong : Session → Bytes → ℕ → Session
receive_pong s payload now = elim (read_sequence payload) [
  | none ↦ s
  | some seq ↦ if seq == s.ping_seq then record s { rtt = now - s.ping_sent_at } else s
]

unfoldable pub backoff : Session → Session × ℕ
backoff s =
    let delay =
      if leb s.recover_delay 0
      then recover_interval
      else if ltb s.recover_delay max_recover_interval
      then min (s.recover_delay * 2) max_recover_interval
      else s.recover_delay in
    (record s { recover_delay = delay }, delay)

abbrev pub reset_backoff : Session → Session
reset_backoff s = record s { recover_delay = 0 }

-- One round of `pingLoop`: the new state, how long the loop sleeps, and what was sent.
unfoldable pub ping_round : Session → ℕ → Rand → Rand → Session × ℕ × List Effect
ping_round s now rand rand' =
    let (s', pinged) = send_ping s now rand in
    if is_alive (health s' now).link
    then (reset_backoff s', ping_interval, pinged)
    else let (s'', delay) = backoff s' in (s'', delay, pinged ++ send s' kind_punch (pad rand'))

unfoldable pub send_each : Session → List Bytes → List Effect
send_each s [] = []
send_each s (p ∷ ps) = send s kind_data p ++ send_each s ps

unfoldable pub flush_pending : Session → Session × List Effect
flush_pending s =
    let s' = record s { pending = []; is_open = true } in
    if s.is_open then (s, []) else (s', first_contact ∷ send_each s' s.pending)

-- The frame is a punch or its ack: where it came from is where the peer is.
unfoldable pub settle : Session → Opened → UdpAddr → ℕ → Session
settle s frame from now =
    let peer : Option UdpAddr = elim s.peer [
      | none ↦ some from
      | some known ↦ if addr_eq known from then some known else some from
    ] in
    heard (remember_sender (record s { peer = peer }) frame.sender) now

-- `none` where `handshake` returns false.
unfoldable pub handshake : Session → Opened → UdpAddr → ℕ → Rand → Option (Session × List Effect)
handshake s frame from now rand =
    let s' = settle s frame from now in
    let (s'', flushed) = flush_pending s' in
    if not (frame.kind == kind_punch) && not (frame.kind == kind_ack)
    then none
    else if frame.kind == kind_punch
    then some (s'', send s' kind_ack (pad rand) ++ flushed)
    else some (s'', flushed)

unfoldable pub answer_ping : Session → Bytes → Rand → List Effect
answer_ping s payload rand = elim (read_sequence payload) [
  | none ↦ []
  | some seq ↦ send s kind_pong (sequence_payload rand seq)
]

unfoldable pub handle : Session → Opened → ℕ → Rand → Session × List Effect
handle s frame now rand =
    if frame.kind == kind_data
    then (s, delivers frame.payload ∷ [])
    else if frame.kind == kind_bye
    then (depart s, [])
    else if frame.kind == kind_ping
    then (s, answer_ping s frame.payload rand)
    else if frame.kind == kind_pong
    then (receive_pong s frame.payload now, [])
    else if frame.kind == kind_punch
    then (s, send s kind_ack (pad rand))
    else (s, extras frame ∷ [])

-- `Deliver` behind the handshake.
unfoldable pub take_frame : Session → Opened → UdpAddr → ℕ → Rand → Session × Bool × List Effect
take_frame s frame from now rand =
    let (s', accepted) = accept s from frame.sender now in
    let (s'', effects) = handle (heard s' now) frame now rand in
    if accepted then (s'', true, effects) else (s', false, [])

-- `Deliver` of a frame that opened.
unfoldable pub deliver_opened : Session → Opened → UdpAddr → ℕ → Rand → Session × Bool × List Effect
deliver_opened s frame from now rand =
    if s.is_open then take_frame s frame from now rand else elim (handshake s frame from now rand) [
      | none ↦ take_frame s frame from now rand
      | some (s', effects) ↦ (s', true, effects)
    ]

-- `Deliver` once the codec has tried the frame and has a new state.
unfoldable pub deliver_outcome :
    SecretCodec
    → Session
    → Result CodecError Opened
    → UdpAddr
    → ℕ
    → Rand
    → (SecretCodec × Session) × Bool × List Effect
deliver_outcome codec s (err e) from now rand = ((codec, record_probe s from false now), false, [])
deliver_outcome codec s (ok frame) from now rand =
    let (s', taken, effects) = deliver_opened s frame from now rand in ((codec, s'), taken, effects)

-- `Deliver`, over the state of the session and of its codec.
unfoldable pub deliver :
    Crypto
    → SecretCodec × Session
    → Bytes
    → UdpAddr
    → ℕ
    → Rand
    → (SecretCodec × Session) × Bool × List Effect
deliver crypto (codec, s) wire from now rand =
    let (codec', outcome) = open_wire crypto codec wire in
    deliver_outcome codec' s outcome from now rand

-- `Send`.
unfoldable pub send_payload : Session → Bytes → Session × List Effect
send_payload s payload =
    if s.is_open
    then (s, send s kind_data payload)
    else (record s { pending = s.pending ++ payload ∷ [] }, [])

unfoldable pub goodbye : Session → Rand → List Effect
goodbye s rand = send s kind_bye (pad rand)

-- One round of `punchLoop`.
unfoldable pub punch_round : Session → Rand → List Effect
punch_round s rand = send s kind_punch (pad rand)

-- The datagrams that the effects put on the wire, sealed one after the other.
unfoldable pub wires : Crypto → SecretCodec → List Effect → SecretCodec × List (Bytes × UdpAddr)
wires crypto codec [] = (codec, [])
wires crypto codec (sends kind payload to ∷ es) =
    let (codec', wire) = seal crypto codec kind payload in
    let (codec'', rest) = wires crypto codec' es in (codec'', (wire, to) ∷ rest)
wires crypto codec (delivers p ∷ es) = wires crypto codec es
wires crypto codec (extras f ∷ es) = wires crypto codec es
wires crypto codec (first_contact ∷ es) = wires crypto codec es
