-- ===== src/Stun/Filtering.antt =====
-- pkg/stun/filtering.go: the tests of RFC 5780, which ask a server to answer from elsewhere. What a
-- query of a server comes to is a function of the two flags that its request carries.
use vapora.Base.{
  ◌≡◌, ◌≢◌, refl, Bool, true, false, not, ◌&&◌, Option, none, some, List, [], ◌∷◌, if◌then◌else◌,
  Bytes, Result, ok, err, All, ◌++◌,
}
use vapora.Net.{UdpAddr}

pub data Filtering : Type 0 where
  filtering_unknown : Filtering
  filters_nothing : Filtering
  filters_address : Filtering
  filters_address_and_port : Filtering

pub data FilteringError : Type 0 where
  no_answer no_alternate_address no_servers : FilteringError

-- `AcceptsUnknownPeers`.
unfoldable pub accepts_unknown_peers : Filtering → Bool
accepts_unknown_peers filters_nothing = true
accepts_unknown_peers _ = false

-- A server as the socket sees it: for `changeIP` and `changePort`, the alternate address that its
-- answer names, or none if no answer came.
pub data Answer : Type 0 where
  silence : Answer
  answered : Option UdpAddr → Answer

abbrev pub Server : Type 0
Server = Bool → Bool → Answer

abbrev pub came : Answer → Bool
came silence = false
came (answered other) = true

-- The two tests, once the server is known to have an alternate address.
unfoldable pub filtering_tests : Server → Filtering
filtering_tests server =
    if came (server true true)
    then filters_nothing
    else if came (server false true)
    then filters_address
    else filters_address_and_port

unfoldable pub probe_filtering : Server → Result FilteringError Filtering
probe_filtering server = elim (server false false) [
  | silence ↦ err no_answer
  | answered other ↦ elim other [
    | none ↦ err no_alternate_address
    | some alternate ↦ ok (filtering_tests server)
  ]
]

-- The loop of `ProbeFilteringAny`, with the last error.
unfoldable pub probe_from :
    FilteringError → (Bytes → Server) → List Bytes → Result FilteringError (Filtering × Bytes)
probe_from last network [] = err last
probe_from last network (s ∷ ss) = elim (probe_filtering (network s)) [
  | err e ↦ probe_from e network ss
  | ok filtering ↦ ok (filtering, s)
]

unfoldable pub probe_filtering_any :
    (Bytes → Server) → List Bytes → Result FilteringError (Filtering × Bytes)
probe_filtering_any network servers = probe_from no_servers network servers

-- RFC 5780, section 4.4: whether such a NAT lets in what comes from the address that was written
-- to, or from another, and from the port that was written to, or from another.
abbrev pub lets_in : Filtering → Bool → Bool → Bool
lets_in filtering_unknown same_ip same_port = false
lets_in filters_nothing same_ip same_port = true
lets_in filters_address same_ip same_port = same_ip
lets_in filters_address_and_port same_ip same_port = same_ip && same_port

-- A server with an alternate address behind such a NAT: it answers from where it is asked to.
abbrev pub behind : Filtering → UdpAddr → Server
behind filtering alternate change_ip change_port =
    if lets_in filtering (not change_ip) (not change_port)
    then answered (some alternate)
    else silence

abbrev pub useful : Answer → Bool
useful silence = false
useful (answered none) = false
useful (answered (some alternate)) = true

-- A server that is silent or has no alternate address cannot be used for the tests.
abbrev pub Useless : Server → Type 0
Useless server = useful (server false false) ≡ false

filtering_tests-behind :
    (filtering : Filtering) (alternate : UdpAddr)
    → filtering ≢ filtering_unknown
    → probe_filtering (behind filtering alternate) ≡ ok filtering
unfolding probe_filtering filtering_tests
filtering_tests-behind filtering_unknown alternate h = absurd (h refl)
filtering_tests-behind filters_nothing alternate h = refl
filtering_tests-behind filters_address alternate h = refl
filtering_tests-behind filters_address_and_port alternate h = refl

probe_filtering-Useless :
    (server : Server) → Useless server → (e : FilteringError) × (probe_filtering server ≡ err e)
unfolding probe_filtering
probe_filtering-Useless server h = of_answer (server false false) server h
  where
    of_answer :
        (a : Answer) (server : Server)
        → useful a ≡ false
        → (e : FilteringError) × ((elim a [
          | silence ↦ err no_answer
          | answered other ↦ elim other [
            | none ↦ err no_alternate_address
            | some alternate ↦ ok (filtering_tests server)
          ]
        ])
            ≡ err e)
    of_answer silence server h = (no_answer, refl)
    of_answer (answered none) server h = (no_alternate_address, refl)
    of_answer (answered (some alternate)) server h = absurd (cc)

probe_from-behind :
    (last : FilteringError) (network : Bytes → Server) (skipped rest : List Bytes) (server : Bytes)
    (filtering : Filtering) (alternate : UdpAddr)
    → All (λ s. Useless (network s)) skipped
    → network server ≡ behind filtering alternate
    → filtering ≢ filtering_unknown
    → probe_from last network (skipped ++ server ∷ rest) ≡ ok (filtering, server)
unfolding probe_from
probe_from-behind last network [] rest server filtering alternate u e h =
    rw (e, probe_from) (rw (filtering_tests-behind filtering alternate h, probe_from) refl)
probe_from-behind last network (s ∷ ss) rest server filtering alternate u e h =
    let (x, f) = probe_filtering-Useless (network s) u.0 in
    rw (f, probe_from) (probe_from-behind x network ss rest server filtering alternate u.1 e h)

-- The probe names the filtering of the NAT in front of it, as RFC 5780 describes the three kinds, by the first server that has an alternate address and answers from where it is asked to; servers before it that are silent or have none are passed over.
pub probe_filtering_any-behind :
    (network : Bytes → Server) (skipped rest : List Bytes) (server : Bytes) (filtering : Filtering)
    (alternate : UdpAddr)
    → All (λ s. Useless (network s)) skipped
    → network server ≡ behind filtering alternate
    → filtering ≢ filtering_unknown
    → probe_filtering_any network (skipped ++ server ∷ rest) ≡ ok (filtering, server)
unfolding probe_filtering_any
probe_filtering_any-behind = probe_from-behind no_servers
