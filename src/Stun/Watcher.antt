-- ===== src/Stun/Watcher.antt =====
-- pkg/stun/watcher.go: the public endpoint of a socket that somebody else reads. Times are
-- nanoseconds; closing the channel of `Wait` and the call of the handler are effects.
pub mod Claims
pub mod Changes
mod Tests
use vapora.Base.{
  ℕ, ◌+◌, ◌-◌, ◌*◌, Bool, true, false, not, ◌||◌, Option, none, some, List, [], ◌∷◌, ◌++◌, ltb,
  ◌==◌, if◌then◌else◌, length, take, drop, Bytes, bytes_eq, Result, ok, err, is_some,
}
use vapora.Base.Dict.{lookup, insert, delete}
use vapora.Base.Wire.{u16_at, u32_at}
use vapora.Net.{UdpAddr, addr_eq}
use vapora.Stun.{
  header_size, binding_response, magic_cookie, build_binding_request, parse_binding_response,
}

abbrev pub second : ℕ
second = 1000000000

abbrev pub pending_ttl : ℕ
pending_ttl = 30 * second

abbrev pub startup_interval : ℕ
startup_interval = 400 * 1000000

abbrev pub default_keepalive : ℕ
default_keepalive = 25 * second

pub record Watcher : Type 0 where
  pub servers : List Bytes
  pub every : ℕ
  pub pending : List (Bytes × ℕ)
  pub current : Option UdpAddr
  -- whether there is a handler, and whether the channel is closed
  pub on_change : Bool
  pub observed : Bool

pub data Effect : Type 0 where
  send_request : Bytes → Effect
  close_observed : Effect
  handler_called : UdpAddr → UdpAddr → Effect

-- `NewWatcher`, over the servers it would take by default. A duration below zero is as zero.
unfoldable pub new_watcher : List Bytes → List Bytes → ℕ → Watcher
new_watcher defaults servers every = record {
  servers = if length servers == 0 then defaults else servers;
  every = if every == 0 then default_keepalive else every;
  pending = [];
  current = none;
  on_change = false;
  observed = false;
}

unfoldable pub interval : Watcher → ℕ
interval w = if is_some w.current || ltb w.every startup_interval then w.every else startup_interval

-- What is remembered after the sweep of `probe`.
unfoldable pub unexpired : ℕ → List (Bytes × ℕ) → List (Bytes × ℕ)
unexpired now [] = []
unexpired now ((id, sent) ∷ rest) =
    let kept = unexpired now rest in
    if ltb pending_ttl (now - sent) then kept else (id, sent) ∷ kept

-- `probe`, once the server's name resolved and a transaction was drawn; without these it does nothing.
unfoldable pub probe : Watcher → Bytes → ℕ → Watcher × List Effect
probe w transaction_id now = (
  record w { pending = insert bytes_eq transaction_id now (unexpired now w.pending) },
  send_request (build_binding_request transaction_id false false) ∷ [],
)

unfoldable pub response_transaction : Bytes → Option Bytes
response_transaction payload =
    if ltb (length payload) header_size
    then none
    else if not (u16_at payload 0 == binding_response)
    then none
    else if not (u32_at payload 4 == magic_cookie)
    then none
    else some (take 12 (drop 8 payload))

-- What `observe` says, by the endpoint before.
unfoldable pub observe_after : Option UdpAddr → Watcher → UdpAddr → Watcher × List Effect
observe_after none w mapped =
    (record w { current = some mapped; observed = true }, close_observed ∷ [])
observe_after (some previous) w mapped =
    let w' = record w { current = some mapped } in
    if not w.on_change || addr_eq previous mapped
    then (w', [])
    else (w', handler_called previous mapped ∷ [])

unfoldable pub observe : Watcher → UdpAddr → Watcher × List Effect
observe w mapped = observe_after w.current w mapped

-- `Handle` of an answer to the transaction, which is pending: whether it is used or not, it was ours.
unfoldable pub handle_ours : Watcher → Bytes → Bytes → Watcher × List Effect
handle_ours w payload transaction_id =
    let w' = record w { pending = delete bytes_eq transaction_id w.pending } in
    elim (parse_binding_response payload transaction_id) [
      | err e ↦ (w', [])
      | ok response ↦ observe w' response.mapped
    ]

unfoldable pub handle : Watcher → Bytes → Watcher × List Effect × Bool
handle w payload = elim (response_transaction payload) [
  | none ↦ (w, [], false)
  | some transaction_id ↦
      let (w', effects) = handle_ours w payload transaction_id in
      if is_some (lookup bytes_eq transaction_id w.pending)
      then (w', effects, true)
      else (w, [], false)
]

-- What happens to a watcher: a round of `Run`, a datagram, a handler that is set.
pub data Event : Type 0 where
  probed : Bytes → ℕ → Event
  received : Bytes → Event
  watched : Event

unfoldable pub step : Watcher → Event → Watcher × List Effect
step w (probed transaction_id now) = probe w transaction_id now
step w (received payload) = let (w', effects, ours) = handle w payload in (w', effects)
step w watched = (record w { on_change = true }, [])

unfoldable pub run : Watcher → List Event → Watcher × List Effect
run w [] = (w, [])
run w (e ∷ es) =
    let (w', effects) = step w e in let (w'', later) = run w' es in (w'', effects ++ later)
