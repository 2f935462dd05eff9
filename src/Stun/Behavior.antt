-- ===== src/Stun/Behavior.antt =====
-- pkg/stun/behavior.go: what the answers of several servers say about how a NAT maps one socket.
-- Asking them is I/O; an observation is what came of it, with `error` for an `Err` that is not nil.
use vapora.Base.{
  ℕ, ◌≤◌, ◌≡◌, ◌↔◌, inl, inr, refl, Bool, true, false, not, ◌||◌, Option, none, some, List, [], ◌∷◌,
  ◌==◌, if◌then◌else◌, length, All, Bytes, arith, Bool-cases, ◌∙◌,
}
use vapora.Net.{UdpAddr, ip_eq, ip_eq_iff}
use vapora.Stun.Filtering.{Filtering, filtering_unknown}

pub data Mapping : Type 0 where
  mapping_unknown : Mapping
  endpoint_independent : Mapping
  address_dependent : Mapping

pub record Observation : Type 0 where
  pub server : Bytes
  pub mapped : Option UdpAddr
  pub error : Bool

pub record Report : Type 0 where
  pub local_port : ℕ
  pub observations : List Observation
  pub mapping : Mapping
  pub filtering : Filtering
  pub filtering_server : Bytes
  pub port_preserved : Bool
  pub hole_punch_viable : Bool

-- The report that `ProbeWith` starts with, once it has its observations.
abbrev pub new_report : ℕ → List Observation → Report
new_report local_port observations = record {
  local_port = local_port;
  observations = observations;
  mapping = mapping_unknown;
  filtering = filtering_unknown;
  filtering_server = [];
  port_preserved = false;
  hole_punch_viable = false;
}

-- The address that an observation is worth, if any.
abbrev pub answer : Observation → Option UdpAddr
answer o = if o.error then none else o.mapped

-- The first loop of `classify`.
unfoldable pub measured : List Observation → List UdpAddr
measured [] = []
measured (o ∷ os) = elim (answer o) [ none ↦ measured os | some a ↦ a ∷ measured os ]

-- The second loop: every later address is the first one.
unfoldable pub agree : UdpAddr → List UdpAddr → Bool
agree a [] = true
agree a (b ∷ bs) = if not (b.port == a.port) || not (ip_eq b.ip a.ip) then false else agree a bs

unfoldable pub classify_measured : Report → List UdpAddr → Report
classify_measured r [] = record r { mapping = mapping_unknown }
classify_measured r (a ∷ []) = record r { mapping = mapping_unknown }
classify_measured r (a ∷ b ∷ bs) =
    let r' = record r { port_preserved = a.port == r.local_port } in
    if agree a (b ∷ bs)
    then record r' { mapping = endpoint_independent; hole_punch_viable = true }
    else record r' { mapping = address_dependent }

unfoldable pub classify : Report → Report
classify r = classify_measured r (measured r.observations)

abbrev pub is_independent : Mapping → Bool
is_independent endpoint_independent = true
is_independent _ = false

-- `PublicEndpoint`, the first answer.
unfoldable pub first_answer : List Observation → Option UdpAddr
first_answer [] = none
first_answer (o ∷ os) = elim (answer o) [ none ↦ first_answer os | some a ↦ some a ]

unfoldable pub public_endpoint : Report → Option UdpAddr × Bool
public_endpoint r = elim (first_answer r.observations) [
  | none ↦ (none, false)
  | some a ↦ (some a, is_independent r.mapping)
]

agree_iff : (a : UdpAddr) (bs : List UdpAddr) → (agree a bs ≡ true) ↔ All (λ b. b ≡ a) bs
unfolding agree
agree_iff a [] = ground arith
agree_iff a (b ∷ bs) = ground (arith, ip_eq_iff b.ip a.ip, agree_iff a bs)

-- Every server that answered saw this one address.
abbrev pub Unanimous : List Observation → UdpAddr → Type 0
Unanimous os a = All (λ b. b ≡ a) (measured os)

first_answer-measured :
    (os : List Observation) (a : UdpAddr) (as' : List UdpAddr)
    → measured os ≡ a ∷ as'
    → first_answer os ≡ some a
unfolding measured first_answer
first_answer-measured [] a as' h = cc
first_answer-measured (o ∷ os) a as' h = ground (arith, first_answer-measured os a as')

viable_of :
    (r : Report) (ms : List UdpAddr)
    → r.hole_punch_viable ≡ false
    → (classify_measured r ms).hole_punch_viable ≡ true
    → (a : UdpAddr) × (as' : List UdpAddr) × (ms ≡ a ∷ as') × (2 ≤ length ms) × All (λ b. b ≡ a) ms
unfolding classify_measured
viable_of r [] z h = absurd (cc)
viable_of r (a ∷ []) z h = absurd (cc)
viable_of r (a ∷ b ∷ bs) z h = elim (Bool-cases (agree a (b ∷ bs))) [
  | inl e ↦ (a, b ∷ bs, refl, omega arith, (refl, (agree_iff a (b ∷ bs)).0 e))
  | inr e ↦ absurd (ground arith)
]

of_unanimous :
    (r : Report) (ms : List UdpAddr) (a : UdpAddr)
    → 2 ≤ length ms
    → All (λ b. b ≡ a) ms
    → ((classify_measured r ms).hole_punch_viable ≡ true)
      × ((classify_measured r ms).mapping ≡ endpoint_independent)
unfolding classify_measured
of_unanimous r [] a n h = absurd (omega arith)
of_unanimous r (x ∷ []) a n h = absurd (omega arith)
of_unanimous r (x ∷ y ∷ ys) a n h = rw h.0 (ground (arith, agree_iff a (y ∷ ys)))

public_endpoint_of :
    (os : List Observation) (r : Report) (a : UdpAddr) (as' : List UdpAddr)
    → r.observations ≡ os
    → measured os ≡ a ∷ as'
    → public_endpoint r ≡ (some a, is_independent r.mapping)
unfolding public_endpoint
public_endpoint_of os r a as' e h =
    rw (e, public_endpoint) (rw (first_answer-measured os a as' h, public_endpoint) refl)

observations_kept :
    (r : Report) (ms : List UdpAddr) → (classify_measured r ms).observations ≡ r.observations
unfolding classify_measured
observations_kept r [] = refl
observations_kept r (a ∷ []) = refl
observations_kept r (a ∷ b ∷ bs) = ground arith

-- Punching is called viable exactly if at least two servers answered and all that did saw one and
-- the same address; that address is then what a peer is told, as a good one.
pub classify-Unanimous :
    (local_port : ℕ) (os : List Observation)
    → ((classify (new_report local_port os)).hole_punch_viable ≡ true) ↔ (
        (a : UdpAddr) × (2 ≤ length (measured os))
        × Unanimous os a
        × (public_endpoint (classify (new_report local_port os)) ≡ (some a, true)))
unfolding classify
classify-Unanimous local_port os = (
  λ h.
      let (a, as', e, n, all) = viable_of r0 (measured os) refl h in
      let (v, m) = of_unanimous r0 (measured os) a n all in
      let p =
        public_endpoint_of os (classify_measured r0 (measured os)) a as'
          (observations_kept r0 (measured os)) e in
      (a, n, all, p ∙ (rw m refl)),
  λ (a, n, all, p). (of_unanimous r0 (measured os) a n all).0,
)
  where
    r0 : Report
    r0 = new_report local_port os
