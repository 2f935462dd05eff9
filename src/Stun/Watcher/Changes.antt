-- ===== src/Stun/Watcher/Changes.antt =====
-- pkg/stun/watcher.go: what a watcher tells about the endpoint, over any history.
use vapora.Base.{
  ℕ, ◌+◌, ◌≤◌, ◌≡◌, refl, Bool, false, Option, none, some, List, [], ◌∷◌, ◌++◌, Bytes, arith,
  is_some, inl, inr, Option-cases, Result-cases, Bool-cases, All, All-append, if◌then◌else◌, ◌||◌,
  not, bytes_eq,
}
use vapora.Base.Dict.{lookup, delete}
use vapora.Net.{UdpAddr, addr_eq}
use vapora.Stun.{parse_binding_response}
use vapora.Stun.Watcher.{
  Watcher, Effect, send_request, close_observed, handler_called, Event, probed, received, watched,
  step, run, probe, handle, handle_ours, observe, observe_after, response_transaction, new_watcher,
}

unfoldable pub closes : List Effect → ℕ
closes [] = 0
closes (close_observed ∷ es) = closes es + 1
closes (send_request request ∷ es) = closes es
closes (handler_called previous current ∷ es) = closes es

-- A handler hears of two addresses that differ.
abbrev pub IsChange : Effect → Type 0
IsChange (handler_called previous current) = addr_eq previous current ≡ false
IsChange close_observed = Unit
IsChange (send_request request) = Unit

closes-append : (xs ys : List Effect) → closes (xs ++ ys) ≡ closes xs + closes ys
unfolding closes
closes-append [] ys = omega arith
closes-append (close_observed ∷ xs) ys = omega (arith, closes-append xs ys)
closes-append (send_request r ∷ xs) ys = closes-append xs ys
closes-append (handler_called p c ∷ xs) ys = closes-append xs ys

abbrev closed : Bool → ℕ
closed observed = if observed then 1 else 0

-- `Wait` goes on exactly when there is an endpoint to return.
abbrev pub IsSound : Watcher → Type 0
IsSound w = w.observed ≡ is_some w.current

-- What holds of a step to `w'` with these effects, if the channel was closed before it or not.
record Orderly (before : Bool) (w' : Watcher) (effects : List Effect) : Type 0 where
  pub sound : IsSound w'
  pub once : closes effects + closed before ≡ closed w'.observed
  pub changes : All IsChange effects

observe_after-Orderly :
    (c : Option UdpAddr) (w : Watcher) (a : UdpAddr)
    → w.observed ≡ is_some c
    → Orderly w.observed (observe_after c w a).0 (observe_after c w a).1
unfolding observe_after closes
observe_after-Orderly none w a h = record { sound = refl; once = ground arith; changes = (tt, tt) }
observe_after-Orderly (some b) w a h = elim (Bool-cases (not w.on_change || addr_eq b a)) [
  | inl e ↦ record { sound = ground arith; once = ground arith; changes = ground arith }
  | inr e ↦ record { sound = ground arith; once = ground arith; changes = ground arith }
]

handle_ours-Orderly :
    (w : Watcher) (payload id : Bytes)
    → IsSound w
    → Orderly w.observed (handle_ours w payload id).0 (handle_ours w payload id).1
unfolding handle_ours observe closes
handle_ours-Orderly w payload id h = elim (Result-cases (parse_binding_response payload id)) [
  | inl (e, p) ↦ rw (p, handle_ours) (record { sound = h; once = omega arith; changes = tt })
  | inr (a, p) ↦
      rw (p, handle_ours)
        (observe_after-Orderly w.current (record w { pending = delete bytes_eq id w.pending })
          a.mapped h)
]

handle-Orderly :
    (w : Watcher) (payload : Bytes)
    → IsSound w
    → Orderly w.observed (handle w payload).0 (handle w payload).1
unfolding handle closes
handle-Orderly w payload h = elim (Option-cases (response_transaction payload)) [
  | inl e ↦ rw (e, handle) (record { sound = h; once = omega arith; changes = tt })
  | inr (id, e) ↦ elim (Bool-cases (is_some (lookup bytes_eq id w.pending))) [
    | inl m ↦ rw (e, handle) (rw (m, handle) (handle_ours-Orderly w payload id h))
    | inr m ↦
        rw (e, handle) (rw (m, handle) (record { sound = h; once = omega arith; changes = tt }))
  ]
]

step-Orderly : (w : Watcher) (e : Event) → IsSound w → Orderly w.observed (step w e).0 (step w e).1
unfolding step probe closes
step-Orderly w (probed id now) h = record { sound = h; once = omega arith; changes = (tt, tt) }
step-Orderly w (received payload) h = handle-Orderly w payload h
step-Orderly w watched h = record { sound = h; once = omega arith; changes = tt }

run-Orderly :
    (w : Watcher) (es : List Event) → IsSound w → Orderly w.observed (run w es).0 (run w es).1
unfolding run closes
run-Orderly w [] h = record { sound = h; once = omega arith; changes = tt }
run-Orderly w (e ∷ es) h =
    let s = step-Orderly w e h in
    let r = run-Orderly (step w e).0 es s.sound in
    record {
      sound = r.sound;
      once = omega (arith, closes-append (step w e).1 (run (step w e).0 es).1, s.once, r.once);
      changes = All-append IsChange (step w e).1 (run (step w e).0 es).1 s.changes r.changes;
    }

-- Over any history of a new watcher: the channel that `Wait` waits on is closed at most once, and
-- it is closed exactly if there is an endpoint to return; the handler is called only with two
-- endpoints that differ.
pub run-new_watcher :
    (defaults servers : List Bytes) (every : ℕ) (es : List Event)
    → IsSound (run (new_watcher defaults servers every) es).0
      × (closes (run (new_watcher defaults servers every) es).1 ≤ 1)
      × All IsChange (run (new_watcher defaults servers every) es).1
run-new_watcher defaults servers every es =
    let w = new_watcher defaults servers every in
    let r = run-Orderly w es (unfold new_watcher in refl) in
    (r.sound, at_most w.observed (run w es).0 (run w es).1 r, r.changes)
  where
    at_most :
        (b : Bool) (w' : Watcher) (effects : List Effect)
        → Orderly b w' effects
        → closes effects ≤ 1
    at_most b w' effects o = ground (arith, o.once)
