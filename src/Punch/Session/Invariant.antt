-- ===== src/Punch/Session/Invariant.antt =====
-- pkg/punch/session.go and probes.go: what holds of a session after any history.
use vapora.Base.{
  Result, ok, err, ℕ, ◌≤◌, ◌≡◌, ◌⊎◌, inl, inr, refl, Bool, true, false, Option, none, some, List,
  [], ◌∷◌, length, arith, Bytes, Option-cases,
}
use vapora.Net.{UdpAddr}
use vapora.Punch.Frame.{Rand}
use vapora.Punch.Codec.{Crypto, SecretCodec, CodecError, Opened, open_wire}
use vapora.Punch.Session.{
  Session, Effect, set_peer, ProbeCount, new_session, heard, record_probe, record_in, add_source,
  remember_sender, accept, accept_elsewhere, moved_to, probe_sources,
}
use vapora.Punch.Session.Deliver.{
  deliver, deliver_outcome, deliver_opened, take_frame, handle, handshake, settle, flush_pending,
  receive_pong, send_payload, send_ping, backoff, ping_round,
}
use vapora.Punch.Session.Run.{
  Event, arrives, rejects, says, aims, leaves, starts, pings, punches, step, run,
}

abbrev pub source_count : Option (List UdpAddr) → ℕ
source_count none = 0
source_count (some sources) = length sources

pub record Inv (s : Session) : Type 0 where
  -- Nothing waits once the path is open.
  pub flushed : (s.is_open ≡ false) ⊎ (s.pending ≡ [])
  -- A path that opened, or a peer that moved, has its sender pinned.
  pub pinned : (s.is_open ≡ false) ⊎ (s.known_sender ≡ true)
  pub moves_pinned : (s.moves ≡ 0) ⊎ (s.known_sender ≡ true)
  pub impostors_le : s.probes.impostors ≤ s.probes.count
  pub sources_bounded : source_count s.probes.sources ≤ probe_sources
  -- The backoff is off, or between one second and half a minute.
  pub delay_le : s.recover_delay ≤ 30_000_000_000

record_in-bounds :
    (p : ProbeCount) (sources : List UdpAddr) (since : ℕ) (from : UdpAddr) (auth : Bool)
    → p.impostors ≤ p.count
    → length sources ≤ probe_sources
    → let q = record_in p sources since from auth in
      (q.impostors ≤ q.count) × (source_count q.sources ≤ probe_sources)
unfolding record_in add_source
record_in-bounds p sources since from auth h g = ground arith

pub record_probe-Inv :
    (s : Session) (from : UdpAddr) (auth : Bool) (now : ℕ)
    → Inv s
    → Inv (record_probe s from auth now)
unfolding record_probe
record_probe-Inv s from auth now v = record {
  flushed = v.flushed;
  pinned = v.pinned;
  moves_pinned = v.moves_pinned;
  impostors_le = elim (Option-cases s.probes.sources) [
    | inl e ↦ rw e (record_in-bounds s.probes [] now from auth v.impostors_le (omega arith)).0
    | inr (known, e) ↦
        rw e
          (record_in-bounds s.probes known s.probes.since from auth v.impostors_le
            (bound known e)).0
  ];
  sources_bounded = elim (Option-cases s.probes.sources) [
    | inl e ↦ rw e (record_in-bounds s.probes [] now from auth v.impostors_le (omega arith)).1
    | inr (known, e) ↦
        rw e
          (record_in-bounds s.probes known s.probes.since from auth v.impostors_le
            (bound known e)).1
  ];
  delay_le = v.delay_le;
}
  where
    bound : (known : List UdpAddr) → s.probes.sources ≡ some known → length known ≤ probe_sources
    bound known e = ground (arith, v.sources_bounded)

moved_to-Inv :
    (s : Session) (from : UdpAddr) (sender : Bytes) → Inv s → Inv (moved_to s from sender)
moved_to-Inv s from sender v = ground (arith, v)

remember_sender-Inv : (s : Session) (sender : Bytes) → Inv s → Inv (remember_sender s sender)
unfolding remember_sender
remember_sender-Inv s sender v = ground (arith, v)

accept_elsewhere-Inv :
    (s : Session) (from : UdpAddr) (sender : Bytes) (now : ℕ)
    → Inv s
    → Inv (accept_elsewhere s from sender now).0
unfolding accept_elsewhere
accept_elsewhere-Inv s from sender now v = ground (
  arith,
  record_probe-Inv s from true now v,
  record_probe-Inv (moved_to s from sender) from true now (moved_to-Inv s from sender v),
)

accept-Inv :
    (s : Session) (from : UdpAddr) (sender : Bytes) (now : ℕ)
    → Inv s
    → Inv (accept s from sender now).0
unfolding accept
accept-Inv s from sender now v =
    ground (arith, v, remember_sender-Inv s sender v, accept_elsewhere-Inv s from sender now v)

handle-Inv :
    (s : Session) (f : Opened) (now : ℕ) (rand : Rand) → Inv s → Inv (handle s f now rand).0
unfolding handle receive_pong
handle-Inv s f now rand v = ground (arith, v)

heard-Inv : (s : Session) (now : ℕ) → Inv s → Inv (heard s now)
heard-Inv s now v = ground (arith, v)

take_frame-Inv :
    (s : Session) (f : Opened) (from : UdpAddr) (now : ℕ) (rand : Rand)
    → Inv s
    → Inv (take_frame s f from now rand).0
unfolding take_frame
take_frame-Inv s f from now rand v =
    let accepted = accept-Inv s from f.sender now v in
    ground (
      arith,
      accepted,
      handle-Inv (heard (accept s from f.sender now).0 now) f now rand (heard-Inv _ now accepted),
    )

settle-known :
    (s : Session) (f : Opened) (from : UdpAddr) (now : ℕ)
    → (settle s f from now).known_sender ≡ true
unfolding settle remember_sender
settle-known s f from now = ground arith

settle-Inv :
    (s : Session) (f : Opened) (from : UdpAddr) (now : ℕ) → Inv s → Inv (settle s f from now)
unfolding settle remember_sender
settle-Inv s f from now v = ground (arith, v)

flush_pending-Inv : (s : Session) → s.known_sender ≡ true → Inv s → Inv (flush_pending s).0
unfolding flush_pending
flush_pending-Inv s k v = ground (arith, v)

abbrev InvOf : Option (Session × List Effect) → Type 0
InvOf none = Unit
InvOf (some r) = Inv r.0

handshake-Inv :
    (s : Session) (f : Opened) (from : UdpAddr) (now : ℕ) (rand : Rand)
    → Inv s
    → InvOf (handshake s f from now rand)
unfolding handshake
handshake-Inv s f from now rand v = ground (
  arith,
  flush_pending-Inv (settle s f from now) (settle-known s f from now) (settle-Inv s f from now v),
)

pub deliver_opened-Inv :
    (s : Session) (f : Opened) (from : UdpAddr) (now : ℕ) (rand : Rand)
    → Inv s
    → Inv (deliver_opened s f from now rand).0
unfolding deliver_opened
deliver_opened-Inv s f from now rand v =
    ground (arith, take_frame-Inv s f from now rand v, handshake-Inv s f from now rand v)

pub ping_round-Inv :
    (s : Session) (now : ℕ) (rand rand' : Rand) → Inv s → Inv (ping_round s now rand rand').0
unfolding ping_round send_ping backoff
ping_round-Inv s now rand rand' v = ground (arith, v)

pub step-Inv : (s : Session) (e : Event) → Inv s → Inv (step s e).0
unfolding step send_payload
step-Inv s (arrives f from now rand) v = deliver_opened-Inv s f from now rand v
step-Inv s (rejects from now) v = record_probe-Inv s from false now v
step-Inv s (says payload) v = ground (arith, v)
step-Inv s (aims peer) v = ground (arith, v)
step-Inv s (leaves rand) v = v
step-Inv s (starts now) v = heard-Inv s now v
step-Inv s (pings now rand rand') v = ping_round-Inv s now rand rand' v
step-Inv s (punches rand) v = v

run-Inv : (s : Session) (es : List Event) → Inv s → Inv (run s es).0
unfolding run
run-Inv s [] v = v
run-Inv s (e ∷ es) v = run-Inv (step s e).0 es (step-Inv s e v)

new_session-Inv : Inv new_session
new_session-Inv = record {
  flushed = inl refl;
  pinned = inl refl;
  moves_pinned = inl refl;
  impostors_le = omega arith;
  sources_bounded = omega arith;
  delay_le = omega arith;
}

pub set_peer-Inv : (s : Session) (peer : Option UdpAddr) → Inv s → Inv (set_peer s peer)
set_peer-Inv s peer v = ground (arith, v)

-- A session aimed at an address, as a room makes one.
pub set_peer-new_session-Inv : (peer : Option UdpAddr) → Inv (set_peer new_session peer)
set_peer-new_session-Inv peer = set_peer-Inv new_session peer new_session-Inv

pub send_payload-Inv : (s : Session) (payload : Bytes) → Inv s → Inv (send_payload s payload).0
unfolding send_payload step
send_payload-Inv s payload v = step-Inv s (says payload) v

deliver_outcome-Inv :
    (c : SecretCodec) (s : Session) (outcome : Result CodecError Opened) (from : UdpAddr) (now : ℕ)
    (rand : Rand)
    → Inv s
    → Inv (deliver_outcome c s outcome from now rand).0.1
unfolding deliver_outcome
deliver_outcome-Inv c s (err e) from now rand v = record_probe-Inv s from false now v
deliver_outcome-Inv c s (ok frame) from now rand v = deliver_opened-Inv s frame from now rand v

pub deliver-Inv :
    (crypto : Crypto) (c : SecretCodec) (s : Session) (wire : Bytes) (from : UdpAddr) (now : ℕ)
    (rand : Rand)
    → Inv s
    → Inv (deliver crypto (c, s) wire from now rand).0.1
unfolding deliver
deliver-Inv crypto c s wire from now rand v =
    deliver_outcome-Inv _ s (open_wire crypto c wire).1 from now rand v

-- After any history of a new session: an open path has nothing left in its queue and has its
-- sender pinned, a peer that moved has too, impostors are among the probes counted, at most 32
-- sources are remembered, and the recovery delay is at most half a minute.
pub run-new_session-Inv : (es : List Event) → Inv (run new_session es).0
run-new_session-Inv es = run-Inv new_session es new_session-Inv
