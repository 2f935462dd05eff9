-- ===== src/Stun/Tests.antt =====
-- Concrete answers for pkg/stun/stun.go.
use vapora.Base.{
  ◌≤◌, ◌↔◌, length, ◌==◌, if◌then◌else◌, ℕ, ◌≡◌, refl, true, false, none, some, List, [], ◌∷◌, ◌++◌,
  replicate, Bytes, ok,
}
use vapora.Net.{v4, UdpAddr, ip_eq}
use vapora.Stun.{
  build_binding_request, request_body, change_flags, decode_address, conclude, nothing_seen, see,
}
use vapora.Stun.Attributes.{see_all, cover}
use vapora.Stun.Behavior.{
  Observation, classify, classify_measured, agree, new_report, measured, Unanimous, public_endpoint,
  classify-Unanimous,
}
use vapora.Stun.Filtering.{
  Server, silence, filters_address, behind, probe_filtering_any, probe_filtering_any-behind,
}

abbrev transaction : Bytes
transaction = replicate 12 7

-- A name that nobody reads, three bytes long, and the address.
abbrev answer : List (ℕ × Bytes)
answer = (0x8022, b'f' ∷ b'o' ∷ b'o' ∷ []) ∷ (0x0020, cover true 203 0 113 7 51820) ∷ []

conclude_run :
    conclude (see_all nothing_seen answer)
    ≡ ok (record { mapped = record { ip = v4 203 0 113 7; port = 51820 }; other = none })
unfolding conclude see decode_address
conclude_run = refl

-- A request for an answer from another port.
request_run :
    build_binding_request transaction false true
    ≡ 0 ∷ 1 ∷ 0 ∷ 8 ∷ 0x21 ∷ 0x12 ∷ 0xA4 ∷ 0x42 ∷ transaction ++ 0 ∷ 3 ∷ 0 ∷ 4 ∷ 0 ∷ 0 ∷ 0 ∷ 2 ∷ []
unfolding build_binding_request request_body change_flags
request_run = refl

abbrev outside : UdpAddr
outside = record { ip = v4 198 51 100 7; port = 40000 }

abbrev saw : Observation
saw = record { server = b's' ∷ []; mapped = some outside; error = false }

abbrev failed : Observation
failed = record { server = b't' ∷ []; mapped = none; error = true }

classify-Unanimous_example :
    ((classify (new_report 40000 (saw ∷ failed ∷ saw ∷ []))).hole_punch_viable ≡ true) ↔ (
      (a : UdpAddr) × (2 ≤ length (measured (saw ∷ failed ∷ saw ∷ [])))
      × Unanimous (saw ∷ failed ∷ saw ∷ []) a
      × (public_endpoint (classify (new_report 40000 (saw ∷ failed ∷ saw ∷ []))) ≡ (some a, true)))
classify-Unanimous_example = classify-Unanimous 40000 (saw ∷ failed ∷ saw ∷ [])

viable_run : (classify (new_report 40000 (saw ∷ failed ∷ saw ∷ []))).hole_punch_viable ≡ true
unfolding classify classify_measured measured agree ip_eq
viable_run = refl

-- The second server answers from where it is asked to; the first is silent.
abbrev network : Bytes → Server
network name change_ip change_port =
    if length name == 1 then silence else behind filters_address outside change_ip change_port

probe_filtering_any-behind_example :
    probe_filtering_any network ((b's' ∷ []) ∷ (b't' ∷ b't' ∷ []) ∷ [])
    ≡ ok (filters_address, b't' ∷ b't' ∷ [])
probe_filtering_any-behind_example =
    probe_filtering_any-behind network ((b's' ∷ []) ∷ []) [] (b't' ∷ b't' ∷ []) filters_address
      outside (refl, tt) refl (cc)
