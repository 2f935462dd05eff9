-- ===== src/Stun/Watcher/Claims.antt =====
-- pkg/stun/watcher.go: which datagrams a watcher takes for its own.
use vapora.Base.{
  ℕ, ◌+◌, ◌≤◌, ◌≡◌, refl, Bool, true, false, Option, none, some, List, [], ◌∷◌, if◌then◌else◌,
  Bytes, bytes_eq, bytes_eq_iff, arith, is_some, inl, inr, Option-cases, Result-cases, ◌&&◌,
  Bool-cases, not, ◌||◌, leb, ◌==◌, length, take, drop,
}
use vapora.Base.Wire.{u16_at, u32_at}
use vapora.Base.Dict.{lookup, insert, delete, lookup-insert, lookup-delete}
use vapora.Stun.{parse_binding_response}
use vapora.Net.{UdpAddr}
use vapora.Stun.Watcher.{
  Watcher, Event, probed, received, watched, step, probe, handle, handle_ours, observe,
  observe_after, unexpired, response_transaction, new_watcher,
}

abbrev held : Bytes → List (Bytes × ℕ) → ℕ
held t pending = if is_some (lookup bytes_eq t pending) then 1 else 0

abbrev carries : Bytes → Option Bytes → Bool
carries t none = false
carries t (some id) = bytes_eq id t

-- How many datagrams that carry the transaction are taken, and how many requests drew it.
abbrev claim_of : Bytes → Watcher → Event → ℕ
claim_of t w (probed id now) = 0
claim_of t w (received payload) =
    if carries t (response_transaction payload) && (handle w payload).2 then 1 else 0
claim_of t w watched = 0

unfoldable pub claims : Bytes → Watcher → List Event → ℕ
claims t w [] = 0
claims t w (e ∷ es) = claim_of t w e + claims t (step w e).0 es

unfoldable pub draws : Bytes → List Event → ℕ
draws t [] = 0
draws t (probed id now ∷ es) = (if bytes_eq id t then 1 else 0) + draws t es
draws t (received payload ∷ es) = draws t es
draws t (watched ∷ es) = draws t es

held-unexpired : (t : Bytes) (now : ℕ) (m : List (Bytes × ℕ)) → held t (unexpired now m) ≤ held t m
unfolding unexpired
held-unexpired t now [] = omega arith
held-unexpired t now ((id, sent) ∷ m) = ground (arith, held-unexpired t now m)

held-insert :
    (t id : Bytes) (now : ℕ) (m : List (Bytes × ℕ))
    → held t (insert bytes_eq id now m) ≤ (if bytes_eq id t then 1 else 0) + held t m
held-insert t id now m = rw (lookup-insert bytes_eq bytes_eq_iff id t now m) (ground arith)

observe_after-pending :
    (c : Option UdpAddr) (w : Watcher) (a : UdpAddr) → (observe_after c w a).0.pending ≡ w.pending
unfolding observe_after
observe_after-pending none w a = refl
observe_after-pending (some b) w a = ground arith

observe-pending : (w : Watcher) (a : UdpAddr) → (observe w a).0.pending ≡ w.pending
unfolding observe
observe-pending w a = observe_after-pending w.current w a

handle_ours-pending :
    (w : Watcher) (payload id : Bytes)
    → (handle_ours w payload id).0.pending ≡ delete bytes_eq id w.pending
unfolding handle_ours
handle_ours-pending w payload id = elim (Result-cases (parse_binding_response payload id)) [
  | inl (e, h) ↦ rw (h, handle_ours) refl
  | inr (a, h) ↦
      rw (h, handle_ours)
        (observe-pending (record w { pending = delete bytes_eq id w.pending }) a.mapped)
]

claim_step :
    (t payload : Bytes) (w : Watcher)
    → claim_of t w (received payload) + held t (handle w payload).0.pending ≤ held t w.pending
unfolding handle
claim_step t payload w = elim (Option-cases (response_transaction payload)) [
  | inl e ↦ rw (e, handle) (ground arith)
  | inr (id, e) ↦ elim (Bool-cases (is_some (lookup bytes_eq id w.pending))) [
    | inl h ↦
        rw (e, handle)
          (rw (h, handle)
            (rw (handle_ours-pending w payload id) (
              rw (lookup-delete bytes_eq bytes_eq_iff id t w.pending)
                (ground (arith, bytes_eq_iff id t)))))
    | inr h ↦ rw (e, handle) (rw (h, handle) (ground arith))
  ]
]

claims-le :
    (t : Bytes) (w : Watcher) (es : List Event) → claims t w es ≤ draws t es + held t w.pending
unfolding claims draws step probe
claims-le t w [] = omega arith
claims-le t w (probed id now ∷ es) =
    let rest = claims-le t (probe w id now).0 es in
    omega (arith, held-insert t id now (unexpired now w.pending), held-unexpired t now w.pending)
claims-le t w (received payload ∷ es) =
    omega (arith, claim_step t payload w, claims-le t (handle w payload).0 es)
claims-le t w (watched ∷ es) = omega (arith, claims-le t (record w { on_change = true }) es)

-- Whether an identity is one of those that were drawn.
unfoldable pub asked : List Bytes → Bytes → Bool
asked [] t = false
asked (id ∷ drawn) t = bytes_eq id t || asked drawn t

-- By the bytes of RFC 5389: a success response to a binding request, with the magic cookie and a
-- transaction that was drawn.
abbrev pub is_answer : List Bytes → Bytes → Bool
is_answer drawn payload =
    leb 20 (length payload)
    && u16_at payload 0 == 0x0101
    && u32_at payload 4 == 0x2112A442
    && asked drawn (take 12 (drop 8 payload))

abbrev stray_of : List Bytes → Watcher → Event → ℕ
stray_of drawn w (probed id now) = 0
stray_of drawn w (received payload) =
    if (handle w payload).2 && not (is_answer drawn payload) then 1 else 0
stray_of drawn w watched = 0

abbrev drawn_after : List Bytes → Event → List Bytes
drawn_after drawn (probed id now) = id ∷ drawn
drawn_after drawn (received payload) = drawn
drawn_after drawn watched = drawn

-- How many datagrams are taken that answer no request sent before them.
unfoldable pub strays : List Bytes → Watcher → List Event → ℕ
strays drawn w [] = 0
strays drawn w (e ∷ es) = stray_of drawn w e + strays (drawn_after drawn e) (step w e).0 es

-- What is pending was drawn.
abbrev OnlyAsked : List Bytes → Watcher → Type 0
OnlyAsked drawn w = (k : Bytes) → held k w.pending ≤ (if asked drawn k then 1 else 0)

OnlyAsked-handle :
    (drawn : List Bytes) (w : Watcher) (payload : Bytes)
    → OnlyAsked drawn w
    → OnlyAsked drawn (handle w payload).0
OnlyAsked-handle drawn w payload h k = omega (arith, claim_step k payload w, h k)

stray_of-zero :
    (drawn : List Bytes) (w : Watcher) (payload : Bytes)
    → OnlyAsked drawn w
    → stray_of drawn w (received payload) ≡ 0
unfolding handle response_transaction
stray_of-zero drawn w payload h = ground (arith, h (take 12 (drop 8 payload)))

strays-zero :
    (drawn : List Bytes) (w : Watcher) (es : List Event) → OnlyAsked drawn w → strays drawn w es ≡ 0
unfolding strays step probe asked
strays-zero drawn w [] h = refl
strays-zero drawn w (probed id now ∷ es) h =
    let later = strays-zero (id ∷ drawn) (probe w id now).0 es (λ k. ground (
      arith,
      held-insert k id now (unexpired now w.pending),
      held-unexpired k now w.pending,
      h k,
    )) in
    omega (arith, later)
strays-zero drawn w (received payload ∷ es) h = omega (
  arith,
  stray_of-zero drawn w payload h,
  strays-zero drawn (handle w payload).0 es (OnlyAsked-handle drawn w payload h),
)
strays-zero drawn w (watched ∷ es) h =
    omega (arith, strays-zero drawn (record w { on_change = true }) es h)

-- From a new watcher on, whatever arrives and however often it is sent again: no more datagrams
-- are taken as answers to a transaction than requests were sent that drew it, and every datagram
-- that is taken is, by its bytes, a success response with the magic cookie and a transaction drawn
-- for a request sent before it.
pub claims-new_watcher :
    (t : Bytes) (defaults servers : List Bytes) (every : ℕ) (es : List Event)
    → (claims t (new_watcher defaults servers every) es ≤ draws t es)
      × (strays [] (new_watcher defaults servers every) es ≡ 0)
unfolding new_watcher
claims-new_watcher t defaults servers every es =
    let w = new_watcher defaults servers every in
    (omega (arith, claims-le t w es), strays-zero [] w es (λ k. omega arith))
