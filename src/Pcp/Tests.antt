-- ===== src/Pcp/Tests.antt =====
-- Concrete messages of pkg/pcp.
use vapora.Base.{◌≡◌, refl, [], ◌∷◌, Bytes, ok}
use vapora.Net.{v4}
use vapora.Pcp.{
  natpmp_map_request, natpmp_opcode, parse_natpmp_map, parse_natpmp_address, protocol_udp,
}

abbrev granted : Bytes
granted = 0 ∷ 129 ∷ 0 ∷ 0 ∷ 0 ∷ 0 ∷ 0 ∷ 1 ∷ 15 ∷ 160 ∷ 19 ∷ 136 ∷ 0 ∷ 0 ∷ 14 ∷ 16 ∷ []

granted_run :
    parse_natpmp_map granted
    ≡ ok (record { internal_port = 4000; external_port = 5000; lifetime = 3600 })
unfolding parse_natpmp_map
granted_run = refl

address_run : parse_natpmp_address granted ≡ ok (v4 15 160 19 136)
unfolding parse_natpmp_address
address_run = refl

abbrev asked : Bytes
asked = 0 ∷ 1 ∷ 0 ∷ 0 ∷ 15 ∷ 160 ∷ 19 ∷ 136 ∷ 0 ∷ 0 ∷ 14 ∷ 16 ∷ []

asked_is : natpmp_map_request protocol_udp 4000 5000 3600 ≡ ok asked
unfolding natpmp_map_request natpmp_opcode
asked_is = refl
