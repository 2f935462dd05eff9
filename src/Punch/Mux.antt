-- ===== src/Punch/Mux.antt =====
-- pkg/punch/mux.go: the one reader of a socket, which hands a datagram to the sink that claimed its
-- address, or else offers it to the fallback sinks in turn. `routes` is the map keyed by the
-- address's text, and a sink is a value of `S`, which the caller of the module chooses.
pub mod Claims
mod Tests
use vapora.Base.{
  ◌≡◌, Bool, true, false, Option, none, some, List, [], ◌∷◌, ◌++◌, if◌then◌else◌, is_some, Bytes,
  Result, ok, err,
}
use vapora.Base.Dict.{lookup, insert, delete}
use vapora.Net.{UdpAddr, addr_eq}

pub data MuxError : Type 0 where
  route_needs_both address_taken : MuxError

pub record Mux {ℓ} (S : Type ℓ) : Type ℓ where
  pub routes : List (UdpAddr × S)
  pub fallback : List S

module _ {ℓ} {S : Type ℓ} where
  -- `NewMux`.
  abbrev pub new_mux : Mux S
  new_mux = record { routes = []; fallback = [] }

  pub routed : Mux S → UdpAddr → Option S
  routed m addr = lookup addr_eq addr m.routes

  claim : Mux S → UdpAddr → S → Mux S × Result MuxError (Unit {0})
  claim m addr sink =
      if is_some (lookup addr_eq addr m.routes)
      then (m, err address_taken)
      else (record m { routes = insert addr_eq addr sink m.routes }, ok tt)

  pub route : Mux S → Option UdpAddr → Option S → Mux S × Result MuxError (Unit {0})
  unfolding claim
  route m none sink = (m, err route_needs_both)
  route m (some addr) none = (m, err route_needs_both)
  route m (some addr) (some sink) = claim m addr sink

  pub unroute : Mux S → Option UdpAddr → Mux S
  unroute m none = m
  unroute m (some addr) = record m { routes = delete addr_eq addr m.routes }

  pub add_fallback : Mux S → S → Mux S
  add_fallback m sink = record m { fallback = m.fallback ++ sink ∷ [] }

  -- A sink's `Deliver`, over whatever state the sinks share, which may hold the mux itself: the
  -- sink and the chain are read before anything is delivered.
  module _ {κ} {W : Type κ} (deliver : S → Bytes → UdpAddr → W → W × Bool) where
    pub offer : List S → Bytes → UdpAddr → W → W
    offer [] payload from w = w
    offer (sink ∷ rest) payload from w =
        let (w', taken) = deliver sink payload from w in
        let later = offer rest payload from w' in if taken then w' else later

    pub dispatch : Mux S → Bytes → UdpAddr → W → W
    dispatch m payload from w = elim (lookup addr_eq from m.routes) [
      | some sink ↦ (deliver sink payload from w).0
      | none ↦ offer m.fallback payload from w
    ]
