-- ===== src/Pcp/Client.antt =====
-- pkg/pcp/client.go over what each read of the socket gives. The gateway's address and the time of a
-- mapping are left out; so is a context that ends between two tries.
pub mod Port
pub mod Granted
pub mod Detect
mod Tests
use vapora.Base.{
  ℕ, zero, suc, ◌+◌, Bool, true, false, not, ◌&&◌, ◌||◌, Option, none, some, List, [], ◌∷◌, ◌++◌,
  ◌==◌, if◌then◌else◌, Bytes, bytes_eq, replicate, Result, ok, err,
}
use vapora.Net.{Ip}
use vapora.Pcp.{
  PcpError, PcpResponse, MapResult, NatpmpHeader, NatpmpMapResult, pcp_request, parse_pcp_response,
  map_payload, parse_map_payload, natpmp_address_request, natpmp_opcode, natpmp_map_request,
  parse_natpmp_response, parse_natpmp_address, parse_natpmp_map, protocol_udp,
}

pub data Version : Type 0 where
  version_unknown version_pcp version_natpmp : Version

abbrev pub is_natpmp : Version → Bool
is_natpmp version_natpmp = true
is_natpmp _ = false

pub data ClientError : Type 0 where
  no_answer cannot_send no_random wrong_opcode wrong_nonce not_supported : ClientError
  bad_answer : PcpError → ClientError
  refused : Version → ℕ → ClientError

-- What comes of one try: an answer, none in time, or a request that could not be written.
pub data Try : Type 0 where
  answered : Bytes → Try
  silent unsent : Try

-- The socket: what its tries will give, and what was written to it. Once there is no more, it is
-- silent.
pub record Conn : Type 0 where
  pub tries : List Try
  pub sent : List Bytes

pub record Client : Type 0 where
  pub internal : Ip
  pub version : Version

pub record MapRequest : Type 0 where
  pub protocol : ℕ
  pub internal_port : ℕ
  pub suggested_port : ℕ
  pub suggested_ip : Option Ip
  pub lifetime : ℕ
  pub nonce : Bytes

pub record Mapping : Type 0 where
  pub version : Version
  pub protocol : ℕ
  pub internal_port : ℕ
  pub external_port : ℕ
  pub external_ip : Option Ip
  pub lifetime : ℕ
  pub nonce : Bytes

abbrev pub attempts : ℕ
attempts = 3

-- The loop of `exchange`, for the tries that are left.
unfoldable pub exchange_from : ℕ → Bytes → List Try → List Bytes → Result ClientError Bytes × Conn
exchange_from zero request tries sent = (err no_answer, record { tries = tries; sent = sent })
exchange_from (suc n) request [] sent = exchange_from n request [] (sent ++ request ∷ [])
exchange_from (suc n) request (answered wire ∷ tries) sent =
    (ok wire, record { tries = tries; sent = sent ++ request ∷ [] })
exchange_from (suc n) request (silent ∷ tries) sent =
    exchange_from n request tries (sent ++ request ∷ [])
exchange_from (suc n) request (unsent ∷ tries) sent =
    (err cannot_send, record { tries = tries; sent = sent })

unfoldable pub exchange : Bytes → Conn → Result ClientError Bytes × Conn
exchange request conn = exchange_from attempts request conn.tries conn.sent

-- What is made of the answer, if there is one.
unfoldable pub then_read {ℓ} :
    {A : Type ℓ}
    → (Bytes → Result ClientError A)
    → Result ClientError Bytes × Conn
    → Result ClientError A × Conn
then_read read (ok wire, conn) = (read wire, conn)
then_read read (err e, conn) = (err e, conn)

-- The answer to a question for a mapping: the part of `mapPCP` behind its header.
unfoldable pub read_granted : MapRequest → PcpResponse → Result ClientError Mapping
read_granted request response = elim (parse_map_payload response.payload) [
  | err e ↦ err (bad_answer e)
  | ok result ↦
      if not (bytes_eq result.nonce request.nonce)
      then err wrong_nonce
      else ok (record {
        version = version_pcp;
        protocol = request.protocol;
        internal_port = result.internal_port;
        external_port = result.external_port;
        external_ip = some result.external_ip;
        lifetime = response.lifetime;
        nonce = request.nonce;
      })
]

unfoldable pub read_pcp_map : MapRequest → Bytes → Result ClientError Mapping
read_pcp_map request wire = elim (parse_pcp_response wire) [
  | err e ↦ err (bad_answer e)
  | ok response ↦
      if not (response.opcode == 1)
      then err wrong_opcode
      else if not (response.result == 0)
      then err (refused version_pcp response.result)
      else read_granted request response
]

unfoldable pub map_pcp : Client → MapRequest → Conn → Result ClientError Mapping × Conn
map_pcp c request conn =
    let payload =
      map_payload request.nonce request.protocol request.internal_port request.suggested_port
        request.suggested_ip in
    then_read (read_pcp_map request)
      (exchange (pcp_request 1 request.lifetime c.internal payload) conn)

-- `ExternalIP`, of a gateway that speaks NAT-PMP.
unfoldable pub read_natpmp_address : Bytes → Result ClientError Ip
read_natpmp_address wire = elim (parse_natpmp_response wire) [
  | err e ↦ err (bad_answer e)
  | ok header ↦ elim (parse_natpmp_address wire) [ err e ↦ err (bad_answer e) | ok ip ↦ ok ip ]
]

unfoldable pub natpmp_external_ip : Conn → Result ClientError Ip × Conn
natpmp_external_ip conn = then_read read_natpmp_address (exchange natpmp_address_request conn)

unfoldable pub read_natpmp_map : ℕ → Bytes → Result ClientError NatpmpMapResult
read_natpmp_map opcode wire = elim (parse_natpmp_response wire) [
  | err e ↦ err (bad_answer e)
  | ok header ↦
      if not (header.opcode == opcode)
      then err wrong_opcode
      else if not (header.result == 0)
      then err (refused version_natpmp header.result)
      else elim (parse_natpmp_map wire) [ err e ↦ err (bad_answer e) | ok result ↦ ok result ]
]

abbrev pub known : Result ClientError Ip → Option Ip
known (ok ip) = some ip
known (err e) = none

-- The end of `mapNATPMP`: one more question, whose failure leaves the address out.
unfoldable pub natpmp_granted :
    MapRequest → Result ClientError NatpmpMapResult × Conn → Result ClientError Mapping × Conn
natpmp_granted request (err e, conn) = (err e, conn)
natpmp_granted request (ok result, conn) =
    let (external, conn') = natpmp_external_ip conn in
    (
      ok (record {
        version = version_natpmp;
        protocol = request.protocol;
        internal_port = result.internal_port;
        external_port = result.external_port;
        external_ip = known external;
        lifetime = result.lifetime;
        nonce = request.nonce;
      }),
      conn',
    )

unfoldable pub natpmp_asked :
    MapRequest
    → Result PcpError ℕ
    → Result PcpError Bytes
    → Conn
    → Result ClientError Mapping × Conn
natpmp_asked request (ok opcode) (ok payload) conn =
    natpmp_granted request (then_read (read_natpmp_map opcode) (exchange payload conn))
natpmp_asked request (err e) payload conn = (err (bad_answer e), conn)
natpmp_asked request (ok opcode) (err e) conn = (err (bad_answer e), conn)

unfoldable pub map_natpmp : MapRequest → Conn → Result ClientError Mapping × Conn
map_natpmp request conn =
    natpmp_asked request (natpmp_opcode request.protocol)
      (natpmp_map_request request.protocol request.internal_port request.suggested_port
        request.lifetime)
      conn
