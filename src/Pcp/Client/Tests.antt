-- ===== src/Pcp/Client/Tests.antt =====
-- A router that is silent once, then grants another port than the one asked for.
use vapora.Base.{◌≡◌, refl, none, some, [], ◌∷◌, ◌++◌, replicate, Bytes, ok, bytes_eq}
use vapora.Net.{v4}
use vapora.Pcp.{protocol_udp, four_in_six, parse_pcp_response, parse_map_payload, from_16}
use vapora.Pcp.Client.{
  version_pcp, version_unknown, answered, silent, Conn, Client, MapRequest, Mapping, attempts,
  exchange, exchange_from, then_read, read_pcp_map, read_granted, map_pcp,
}
use vapora.Pcp.Client.Port.{map_with, with_nonce, map_port}
use vapora.Pcp.Client.Granted.{Brought, Grants, map_port-Grants}
use vapora.Pcp.Client.Detect.{detect, found, found_by, read_announce}

abbrev nonce : Bytes
nonce = replicate 12 7

abbrev grant : Bytes
grant =
    (2 ∷ 0x81 ∷ 0 ∷ 0 ∷ 0 ∷ 0 ∷ 0 ∷ 60 ∷ replicate 16 0)
    ++ (nonce
        ++ ((17 ∷ 0 ∷ 0 ∷ 0 ∷ 0x10 ∷ 0 ∷ 0x20 ∷ 0 ∷ [])
            ++ (four_in_six ++ (198 ∷ 51 ∷ 100 ∷ 7 ∷ []))))

abbrev asked : MapRequest
asked = record {
  protocol = protocol_udp;
  internal_port = 0x1000;
  suggested_port = 0;
  suggested_ip = none;
  lifetime = 3600;
  nonce = nonce;
}

abbrev client : Client
client = record { internal = v4 192 168 0 2; version = version_unknown }

abbrev router : Conn
router = record { tries = silent ∷ answered grant ∷ []; sent = [] }

abbrev mapping : Mapping
mapping = record {
  version = version_pcp;
  protocol = protocol_udp;
  internal_port = 0x1000;
  external_port = 0x2000;
  external_ip = some (v4 198 51 100 7);
  lifetime = 60;
  nonce = nonce;
}

mapped : (map_port client none asked router).0 ≡ ok mapping
unfolding map_port map_with with_nonce map_pcp exchange exchange_from then_read read_pcp_map
    read_granted parse_pcp_response parse_map_payload from_16 bytes_eq
mapped = refl

map_port-Grants_example : (wire : Bytes) × Brought attempts wire router.tries × Grants wire mapping
map_port-Grants_example = map_port-Grants client none asked router mapping refl mapped

detected :
    (detect client (record { tries = answered (2 ∷ 0x80 ∷ replicate 22 0) ∷ []; sent = [] })).0
    ≡ ok version_pcp
unfolding detect found found_by read_announce exchange exchange_from parse_pcp_response
detected = refl
