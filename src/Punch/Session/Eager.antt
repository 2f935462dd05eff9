-- ===== src/Punch/Session/Eager.antt =====
-- pkg/punch/session.go: what the caller says before the path opens is sent when it does.
use vapora.Base.{
  ℕ, ◌≡◌, ◌⊎◌, inl, inr, refl, ◌∙◌, Bool, true, false, some, List, [], ◌∷◌, ◌++◌, append-nil,
  append_assoc, if◌then◌else◌, ◌==◌, arith, Bytes, Option-cases,
}
use vapora.Net.{UdpAddr, addr_eq_iff}
use vapora.Punch.Frame.{Rand, pad, kind_ack, kind_punch, kind_data}
use vapora.Punch.Codec.{Opened}
use vapora.Punch.Session.{Session, Effect, sends, first_contact, send, remember_sender}
use vapora.Punch.Session.Deliver.{
  deliver_opened, handshake, settle, flush_pending, send_each, send_payload,
}

-- `Send` called on each payload in turn.
pub say_all : Session → List Bytes → Session × List Effect
say_all s [] = (s, [])
say_all s (p ∷ ps) =
    let (s', first) = send_payload s p in let (s'', later) = say_all s' ps in (s'', first ++ later)

abbrev pub data_to : UdpAddr → List Bytes → List Effect
data_to to [] = []
data_to to (p ∷ ps) = sends kind_data p to ∷ data_to to ps

say_all-closed :
    (s : Session) (ps : List Bytes)
    → s.is_open ≡ false
    → say_all s ps ≡ (record s { pending = s.pending ++ ps }, [])
unfolding say_all send_payload
say_all-closed s [] h = rw append-nil
say_all-closed s (p ∷ ps) h = ground (
  arith,
  say_all-closed (record s { pending = s.pending ++ p ∷ [] }) ps h,
  append_assoc s.pending (p ∷ []) ps,
)

send_each-data_to :
    (s : Session) (to : UdpAddr) (ps : List Bytes)
    → s.peer ≡ some to
    → send_each s ps ≡ data_to to ps
unfolding send_each send
send_each-data_to s to [] e = refl
send_each-data_to s to (p ∷ ps) e = ground (arith, send_each-data_to s to ps e)

settle_fields :
    (s : Session) (f : Opened) (from : UdpAddr) (now : ℕ)
    → let t = settle s f from now in
      (t.peer ≡ some from) × (t.is_open ≡ s.is_open) × (t.pending ≡ s.pending)
unfolding settle remember_sender
settle_fields s f from now = elim (Option-cases s.peer) [
  | inl e ↦ ground arith
  | inr (known, e) ↦ ground (arith, addr_eq_iff known from)
]

-- The handshake of a path still closed.
abbrev pub Opens : List Bytes → Opened → UdpAddr → Rand → Session × Bool × List Effect → Type 0
Opens queue f from rand (t, taken, effects) =
    (taken ≡ true)
    × (t.is_open ≡ true)
    × (t.pending ≡ [])
    × (t.peer ≡ some from)
    × (effects
        ≡ (if f.kind == kind_punch then sends kind_ack (pad rand) from ∷ [] else [])
          ++ (first_contact ∷ data_to from queue))

flush_pending-lem :
    (s : Session) (from : UdpAddr)
    → s.is_open ≡ false
    → s.peer ≡ some from
    → flush_pending s
      ≡ (record s { pending = []; is_open = true }, first_contact ∷ data_to from s.pending)
unfolding flush_pending
flush_pending-lem s from o e =
    ground (arith, send_each-data_to (record s { pending = []; is_open = true }) from s.pending e)

deliver_opened-Opens :
    (s : Session) (f : Opened) (from : UdpAddr) (now : ℕ) (rand : Rand)
    → s.is_open ≡ false
    → (f.kind ≡ kind_punch) ⊎ (f.kind ≡ kind_ack)
    → Opens s.pending f from rand (deliver_opened s f from now rand)
unfolding deliver_opened handshake send
deliver_opened-Opens s f from now rand o k =
    let (p, q, r) = settle_fields s f from now in
    ground (arith, flush_pending-lem (settle s f from now) from (q ∙ o) p)

-- Payloads said before the path opens go out once, in order and behind the ack, to the address
-- that the first punch or ack came from; the queue is then empty and the path open.
pub deliver_opened-say_all :
    (s : Session) (ps : List Bytes) (f : Opened) (from : UdpAddr) (now : ℕ) (rand : Rand)
    → s.is_open ≡ false
    → (f.kind ≡ kind_punch) ⊎ (f.kind ≡ kind_ack)
    → ((say_all s ps).1 ≡ [])
      × Opens (s.pending ++ ps) f from rand (deliver_opened (say_all s ps).0 f from now rand)
deliver_opened-say_all s ps f from now rand o k =
    rw (say_all-closed s ps o)
      (refl, deliver_opened-Opens (record s { pending = s.pending ++ ps }) f from now rand o k)
