-- ===== src/Punch/Mux/Claims.antt =====
-- pkg/punch/mux.go: a claimed address is never stolen, and which sinks see a datagram.
use vapora.Base.{
  ◌≡◌, inl, inr, ◌∙◌, Bool, true, false, Option, none, some, List, [], ◌∷◌, ◌++◌, arith, Bytes, All,
  Option-cases, Bool-cases,
}
use vapora.Base.Dict.{lookup, lookup-insert, lookup-delete}
use vapora.Net.{UdpAddr, addr_eq, addr_eq_iff}
use vapora.Punch.Mux.{Mux, routed, claim, route, unroute, add_fallback, offer, dispatch}

-- A call of one of the methods that change the mux.
pub data Call {ℓ} (S : Type ℓ) : Type ℓ where
  routes_to : Option UdpAddr → Option S → Call S
  unroutes : Option UdpAddr → Call S
  falls_back : S → Call S

module _ {ℓ} {S : Type ℓ} where
  pub call : Mux S → Call S → Mux S
  call m (routes_to addr sink) = (route m addr sink).0
  call m (unroutes addr) = unroute m addr
  call m (falls_back sink) = add_fallback m sink

  pub call_all : Mux S → List (Call S) → Mux S
  call_all m [] = m
  call_all m (c ∷ cs) = call_all (call m c) cs

  abbrev pub Leaves : UdpAddr → Call S → Type 0
  Leaves addr (unroutes (some other)) = addr_eq other addr ≡ false
  Leaves addr _ = Unit

  routed-call :
      (m : Mux S) (c : Call S) (addr : UdpAddr) (sink : S)
      → routed m addr ≡ some sink
      → Leaves addr c
      → routed (call m c) addr ≡ some sink
  unfolding routed call route claim unroute add_fallback
  routed-call m (routes_to none s) addr sink h l = h
  routed-call m (routes_to (some a) none) addr sink h l = h
  routed-call m (routes_to (some a) (some s)) addr sink h l = ground (
    arith,
    lookup-insert addr_eq addr_eq_iff a addr s m.routes,
    addr_eq_iff a addr,
    Option-cases (lookup addr_eq a m.routes),
  )
  routed-call m (unroutes none) addr sink h l = h
  routed-call m (unroutes (some a)) addr sink h l =
      lookup-delete addr_eq addr_eq_iff a addr m.routes ∙ ground arith
  routed-call m (falls_back s) addr sink h l = h

  -- However many others ask for it, an address stays with the sink that claimed it until it is
  -- released.
  pub routed-call_all :
      (m : Mux S) (cs : List (Call S)) (addr : UdpAddr) (sink : S)
      → routed m addr ≡ some sink
      → All (Leaves addr) cs
      → routed (call_all m cs) addr ≡ some sink
  unfolding call_all
  routed-call_all m [] addr sink h l = h
  routed-call_all m (c ∷ cs) addr sink h (l, ls) =
      routed-call_all (call m c) cs addr sink (routed-call m c addr sink h l) ls

  module _ {κ} {W : Type κ} (deliver : S → Bytes → UdpAddr → W → W × Bool) where
    -- The sinks refuse one after the other, from one state to another.
    abbrev pub AllRefuse : List S → Bytes → UdpAddr → W → W → Type κ
    AllRefuse [] payload from w w' = w ≡ w'
    AllRefuse (sink ∷ rest) payload from w w' =
        ((deliver sink payload from w).1 ≡ false)
        × AllRefuse rest payload from (deliver sink payload from w).0 w'

    offer-append :
        (refusing : List S) (sink : S) (rest : List S) (payload : Bytes) (from : UdpAddr) (w w' : W)
        → AllRefuse refusing payload from w w'
        → (deliver sink payload from w').1 ≡ true
        → offer deliver (refusing ++ sink ∷ rest) payload from w ≡ (deliver sink payload from w').0
    unfolding offer
    offer-append [] sink rest payload from w w' e t = ground (arith)
    offer-append (s ∷ ss) sink rest payload from w w' (r, rs) t =
        ground (arith, offer-append ss sink rest payload from (deliver s payload from w).0 w' rs t)

    -- A datagram from a claimed address goes to its sink and no other. From an unclaimed one, the
    -- fallback sinks see it in the order they were added, up to the first that takes it.
    pub dispatch_lem :
        (m : Mux S) (refusing : List S) (sink : S) (rest : List S) (payload : Bytes)
        (from : UdpAddr) (w w' : W)
        → m.fallback ≡ refusing ++ sink ∷ rest
        → AllRefuse refusing payload from w w'
        → (deliver sink payload from w').1 ≡ true
        → dispatch deliver m payload from w ≡ elim (routed m from) [
          | some owner ↦ (deliver owner payload from w).0
          | none ↦ (deliver sink payload from w').0
        ]
    unfolding dispatch routed
    dispatch_lem m refusing sink rest payload from w w' e r t = ground (
      arith,
      e,
      offer-append refusing sink rest payload from w w' r t,
      Option-cases (lookup addr_eq from m.routes),
    )

    offer_keeps :
        (P : W → Type 0) {payload : Bytes} {from : UdpAddr}
        → ((sink : S) (w : W) → P w → P (deliver sink payload from w).0)
        → (sinks : List S) (w : W) → P w
        → P (offer deliver sinks payload from w)
    unfolding offer
    offer_keeps P {payload = payload} {from = from} h [] w p = p
    offer_keeps P {payload = payload} {from = from} h (s ∷ ss) w p =
        let q = h s w p in
        let later = offer_keeps P h ss (deliver s payload from w).0 q in
        elim (Bool-cases (deliver s payload from w).1) [ inl e ↦ rw e q | inr e ↦ rw e later ]

    -- What every sink keeps, a dispatch keeps.
    pub dispatch_keeps :
        (P : W → Type 0) {payload : Bytes} {from : UdpAddr}
        → ((sink : S) (w : W) → P w → P (deliver sink payload from w).0)
        → (m : Mux S) (w : W) → P w
        → P (dispatch deliver m payload from w)
    unfolding dispatch
    dispatch_keeps P {payload = payload} {from = from} h m w p =
        elim (Option-cases (lookup addr_eq from m.routes)) [
          | inl e ↦ rw (e, dispatch) (offer_keeps P h m.fallback w p)
          | inr (s, e) ↦ rw (e, dispatch) (h s w p)
        ]
