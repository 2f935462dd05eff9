-- ===== src/Punch/Session.antt =====
-- pkg/punch/session.go, health.go and probes.go: one end of a two-way path. The lock makes each
-- method one step; a method returns the new state, its result, and what it did to the outside in
-- order. `now` is the clock as the method reads it, in nanoseconds.
pub mod Deliver
pub mod Run
pub mod Invariant
pub mod Peer
pub mod Liveness
pub mod Eager
mod Tests
use vapora.Base.{
  ℕ, zero, suc, ◌+◌, ◌-◌, ◌*◌, ◌%◌, ◌^◌, Bool, true, false, not, ◌&&◌, ◌||◌, Option, none, some,
  List, [], ◌∷◌, ◌++◌, map, ltb, leb, ◌==◌, if◌then◌else◌, length, take, is_some, Bytes, bytes_eq,
  Result, ok, err,
}
use vapora.Base.Wire.{put_u64, u64_at}
use vapora.Net.{UdpAddr, addr_eq}
use vapora.Punch.Frame.{
  kind_punch, kind_ack, kind_ping, kind_pong, kind_bye, kind_data, Rand, padded, pad,
}
use vapora.Punch.Codec.{Crypto, SecretCodec, Opened, open_wire, seal}
use vapora.Net.{contains_addr}

pub data Link : Type 0 where
  link_alive link_stale link_lost : Link

abbrev pub is_alive : Link → Bool
is_alive link_alive = true
is_alive _ = false

abbrev pub second : ℕ
second = 1_000_000_000

abbrev pub stale_after : ℕ
stale_after = 12 * second

abbrev pub lost_after : ℕ
lost_after = 45 * second

abbrev pub ping_interval : ℕ
ping_interval = 5 * second

abbrev pub recover_interval : ℕ
recover_interval = second

abbrev pub max_recover_interval : ℕ
max_recover_interval = 30 * second

abbrev pub probe_sources : ℕ
probe_sources = 32

pub record Health : Type 0 where
  pub link : Link
  pub departed : Bool
  pub rtt : ℕ
  pub silence : ℕ

-- `sources` is the map's keys, and none before the map is made.
pub record ProbeCount : Type 0 where
  pub count : ℕ
  pub impostors : ℕ
  pub sources : Option (List UdpAddr)
  pub last : Option UdpAddr
  pub since : ℕ

-- What the session does to the outside: a frame sealed and handed to the wire, a payload handed to
-- the observer, a frame handed to the `Extra` handler, and the call of `sayFirstContact`.
pub data Effect : Type 0 where
  sends : ℕ → Bytes → UdpAddr → Effect
  delivers : Bytes → Effect
  extras : Opened → Effect
  first_contact : Effect

pub record Session : Type 0 where
  pub peer : Option UdpAddr
  pub is_open : Bool
  pub pending : List Bytes
  pub last_heard : Option ℕ
  pub rtt : ℕ
  pub ping_seq : ℕ
  pub ping_sent_at : ℕ
  pub recover_delay : ℕ
  pub moves : ℕ
  pub peer_sender : Bytes
  pub known_sender : Bool
  pub departed : Bool
  pub probes : ProbeCount

-- `NewSession`.
abbrev pub new_session : Session
new_session = record {
  peer = none;
  is_open = false;
  pending = [];
  last_heard = none;
  rtt = 0;
  ping_seq = 0;
  ping_sent_at = 0;
  recover_delay = 0;
  moves = 0;
  peer_sender = 0 ∷ 0 ∷ 0 ∷ 0 ∷ [];
  known_sender = false;
  departed = false;
  probes = record { count = 0; impostors = 0; sources = none; last = none; since = 0 };
}

abbrev pub set_peer : Session → Option UdpAddr → Session
set_peer s peer = record s { peer = peer }

-- The private `send`, which does nothing while there is no peer.
pub send : Session → ℕ → Bytes → List Effect
send s kind payload = elim s.peer [ none ↦ [] | some peer ↦ sends kind payload peer ∷ [] ]

abbrev pub heard : Session → ℕ → Session
heard s now = record s { last_heard = some now }

link_of : Bool → ℕ → Link
link_of departed silence =
    if departed
    then link_lost
    else if leb lost_after silence
    then link_lost
    else if leb stale_after silence
    then link_stale
    else link_alive

health_since : Session → ℕ → ℕ → Health
unfolding link_of
health_since s heard_at now = record {
  link = link_of s.departed (now - heard_at);
  departed = s.departed;
  rtt = s.rtt;
  silence = now - heard_at;
}

abbrev pub no_news : Health
no_news = record { link = link_alive; departed = false; rtt = 0; silence = 0 }

pub health : Session → ℕ → Health
unfolding health_since
health s now = elim s.peer [
  | none ↦ no_news
  | some peer ↦ elim s.last_heard [ none ↦ no_news | some at ↦ health_since s at now ]
]

add_source : List UdpAddr → UdpAddr → List UdpAddr
add_source sources from =
    if ltb (length sources) probe_sources
    then (if contains_addr sources from then sources else from ∷ sources)
    else sources

record_in : ProbeCount → List UdpAddr → ℕ → UdpAddr → Bool → ProbeCount
unfolding add_source
record_in p sources since from authenticated = record {
  count = p.count + 1;
  impostors = if authenticated then p.impostors + 1 else p.impostors;
  sources = some (add_source sources from);
  last = some from;
  since = since;
}

-- `record`, which `countProbe` and `countImpostor` call.
pub record_probe : Session → UdpAddr → Bool → ℕ → Session
unfolding record_in
record_probe s from authenticated now = record s {
  probes = elim s.probes.sources [
    | none ↦ record_in s.probes [] now from authenticated
    | some sources ↦ record_in s.probes sources s.probes.since from authenticated
  ];
}

abbrev pub depart : Session → Session
depart s = record s { departed = true }

-- `rememberSender`.
pub remember_sender : Session → Bytes → Session
remember_sender s sender =
    if s.known_sender then s else record s { peer_sender = sender; known_sender = true }

abbrev moved_to : Session → UdpAddr → Bytes → Session
moved_to s from sender = record s {
  peer = some from;
  moves = s.moves + 1;
  peer_sender = sender;
  known_sender = true;
}

-- The part of `accept` for an address other than the peer's; `countImpostor` is deferred, so it
-- comes last on every return.
accept_elsewhere : Session → UdpAddr → Bytes → ℕ → Session × Bool
unfolding record_probe
accept_elsewhere s from sender now =
    if is_alive (health s now).link
    then (record_probe s from true now, false)
    else if s.known_sender && not (bytes_eq s.peer_sender sender)
    then (record_probe s from true now, false)
    else (record_probe (moved_to s from sender) from true now, true)

pub accept : Session → UdpAddr → Bytes → ℕ → Session × Bool
unfolding accept_elsewhere remember_sender
accept s from sender now = elim s.peer [
  | none ↦ (s, false)
  | some peer ↦
      if addr_eq peer from
      then (remember_sender s sender, true)
      else accept_elsewhere s from sender now
]
