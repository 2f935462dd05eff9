-- ===== src/Punch/Session/Liveness.antt =====
-- pkg/punch/health.go: what silence says about a path, and how hard it is probed.
use vapora.Base.{
  ℕ, zero, suc, ◌+◌, ◌-◌, ◌*◌, ◌%◌, ◌^◌, ◌≤◌, ◌<◌, ◌≡◌, ◌↔◌, ◌⊎◌, refl, sym, ap, ◌∙◌, true, false,
  some, [], ◌∷◌, ◌++◌, if◌then◌else◌, ◌==◌, arith, Option-cases, length-append, min,
}
use vapora.Base.Wire.{put_u64, u64_at}
use vapora.Net.{UdpAddr}
use vapora.Punch.Frame.{Rand, kind_ping, kind_pong}
use vapora.Punch.Codec.{Opened}
use vapora.Punch.Session.{
  Session, sends, Link, link_alive, link_stale, link_lost, send, heard, health, health_since,
  link_of, recover_interval, max_recover_interval,
}
use vapora.Punch.Frame.Padding.{padded-append}
use native.Mathlib.Nat.{pow-succ', one-le-pow}
use vapora.Punch.Session.Deliver.{
  sequence_payload, read_sequence, send_ping, receive_pong, backoff, reset_backoff, handle,
  answer_ping,
}

-- How bad a link is.
abbrev pub badness : Link → ℕ
badness link_alive = 0
badness link_stale = 1
badness link_lost = 2

-- With nothing heard, the link of a path only gets worse as time passes.
pub health_mono :
    (s : Session) (now later : ℕ)
    → now ≤ later
    → badness (health s now).link ≤ badness (health s later).link
unfolding health health_since link_of
health_mono s now later h = ground (arith, Option-cases s.peer, Option-cases s.last_heard)

-- Of a path with a peer that was last heard from at some time: it is lost exactly if the peer said
-- goodbye or 45 seconds of silence have passed, and alive exactly if it did not and it is less
-- than 12.
pub health-heard :
    (s : Session) (peer : UdpAddr) (at now : ℕ)
    → s.peer ≡ some peer
    → let link = (health (heard s at) now).link in
      ((link ≡ link_lost) ↔ ((s.departed ≡ true) ⊎ (45_000_000_000 ≤ now - at)))
      × ((link ≡ link_alive) ↔ ((s.departed ≡ false) × (now - at < 12_000_000_000)))
unfolding health health_since link_of
health-heard s peer at now e =
    ((λ h. ground arith, λ h. ground arith), (λ h. ground arith, λ h. ground arith))

pub backoff_times : ℕ → Session → Session
backoff_times zero s = s
backoff_times (suc k) s = (backoff (backoff_times k s)).0

backoff-recover_delay : (s : Session) → (backoff s).1 ≡ (backoff s).0.recover_delay
unfolding backoff
backoff-recover_delay s = refl

recover_delay-backoff_times :
    (k : ℕ) (s : Session)
    → (backoff_times (suc k) (reset_backoff s)).recover_delay
      ≡ min (recover_interval * 2 ^ k) max_recover_interval
unfolding backoff_times
recover_delay-backoff_times zero s = unfold backoff in refl
recover_delay-backoff_times (suc k) s =
    widen (backoff_times (suc k) (reset_backoff s)) (2 ^ k) (one-le-pow k 2 (omega arith))
      (recover_delay-backoff_times k s)
    ∙ ap (λ (t : ℕ). min (recover_interval * t) max_recover_interval) (sym (pow-succ' 2 k))
  where
    widen :
        (t : Session) (m : ℕ)
        → 1 ≤ m
        → t.recover_delay ≡ min (recover_interval * m) max_recover_interval
        → (backoff t).0.recover_delay ≡ min (recover_interval * (2 * m)) max_recover_interval
    widen t m h e = unfold backoff in ground arith

-- The recovery delay after a path went quiet: one second, then twice the last, up to half a minute.
pub backoff-backoff_times :
    (k : ℕ) (s : Session)
    → (backoff (backoff_times k (reset_backoff s))).1
      ≡ min (recover_interval * 2 ^ k) max_recover_interval
backoff-backoff_times k s =
    backoff-recover_delay (backoff_times k (reset_backoff s))
    ∙ (unfold backoff_times in recover_delay-backoff_times k s)

-- The number is read back whatever filler follows it.
pub read_sequence-sequence_payload :
    (rand : Rand) (n : ℕ) → n < 2 ^ 64 → read_sequence (sequence_payload rand n) ≡ some n
unfolding read_sequence sequence_payload
read_sequence-sequence_payload rand n h =
    let (filler, e) = padded-append rand (put_u64 n) in
    let whole : u64_at (put_u64 n ++ filler) 0 ≡ n = omega arith in
    rw (e, whole) (ground (arith, length-append (put_u64 n) filler))

-- The other side answers the ping numbered m by a pong with the same number, and that pong, whatever
-- its filler, sets the round trip exactly if m is the ping still outstanding: to the time from
-- sending that ping to handling the pong.
pub ping_pong :
    (a b : Session) (at_a : UdpAddr) (sent_at now back_at m : ℕ) (r r' r'' : Rand) (f : Opened)
    → b.peer ≡ some at_a
    → f.kind ≡ kind_ping
    → f.payload ≡ sequence_payload r m
    → m < 2 ^ 64
    → let a' = (send_ping a sent_at r'').0 in
      let pong = sequence_payload r' m in
      ((handle b f now r').1 ≡ sends kind_pong pong at_a ∷ [])
      × ((receive_pong a' pong back_at).rtt
          ≡ (if m == (a.ping_seq + 1) % 2 ^ 64 then back_at - sent_at else a.rtt))
unfolding send_ping handle answer_ping receive_pong send
ping_pong a b at_a sent_at now back_at m r r' r'' f pb k p h =
    let reads = read_sequence-sequence_payload r m h in
    let echo = read_sequence-sequence_payload r' m h in
    (ground (arith, reads, ap read_sequence p), ground (arith, echo))
