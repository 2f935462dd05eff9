-- ===== src/Punch/Mux/Tests.antt =====
-- A concrete mux of pkg/punch/mux.go, whose sinks are numbers and write down who was asked.
use vapora.Base.{ℕ, ◌≡◌, refl, Bool, some, List, [], ◌∷◌, ◌++◌, ◌==◌, Bytes}
use vapora.Net.{v4, UdpAddr, addr_eq, ip_eq}
use vapora.Punch.Mux.{Mux, routed}
use vapora.Punch.Mux.Claims.{Call, routes_to, unroutes, falls_back, call_all, routed-call_all}

abbrev host : ℕ → UdpAddr
host n = record { ip = v4 10 0 0 n; port = 9 }

abbrev claimed : Mux ℕ
claimed = record { routes = (host 1, 5) ∷ []; fallback = 7 ∷ 8 ∷ 9 ∷ [] }

abbrev others : List (Call ℕ)
others = routes_to (some (host 1)) (some 6) ∷ unroutes (some (host 2)) ∷ falls_back 3 ∷ []

routed-call_all_example : routed (call_all claimed others) (host 1) ≡ some 5
unfolding routed addr_eq ip_eq
routed-call_all_example = routed-call_all claimed others (host 1) 5 refl (tt, (refl, (tt, tt)))

-- Sink 8 takes what it is offered.
abbrev asked : ℕ → Bytes → UdpAddr → List ℕ → List ℕ × Bool
asked sink payload from log = (log ++ sink ∷ [], sink == 8)
