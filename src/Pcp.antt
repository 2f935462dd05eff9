-- ===== src/Pcp.antt =====
-- pkg/pcp/pcp.go, natpmp.go and result.go: the bytes of PCP (RFC 6887) and NAT-PMP (RFC 6886). A
-- netip.Addr that is valid is an `Ip`; a lifetime is its whole seconds.
pub mod Mapped
pub mod Answers
pub mod Client
mod Tests
use vapora.Base.{
  ℕ, ◌+◌, ◌-◌, ◌*◌, ◌/◌, ◌%◌, ◌^◌, Bool, true, false, not, ◌&&◌, Option, none, some, List, [], ◌∷◌,
  ◌++◌, ltb, ◌==◌, if◌then◌else◌, length, take, drop, replicate, Bytes, bytes_eq, Result, ok, err,
}
use vapora.Base.Wire.{byte_at, put_u16, put_u32, u16_at, u32_at}
use vapora.Net.{Ip, v4, v6}

abbrev pub pcp_version : ℕ
pcp_version = 2

abbrev pub pcp_header_size : ℕ
pcp_header_size = 24

abbrev pub pcp_response_r : ℕ
pcp_response_r = 0x80

abbrev pub map_payload_size : ℕ
map_payload_size = 36

abbrev pub natpmp_version : ℕ
natpmp_version = 0

abbrev pub natpmp_response : ℕ
natpmp_response = 128

abbrev pub protocol_tcp : ℕ
protocol_tcp = 6

abbrev pub protocol_udp : ℕ
protocol_udp = 17

pub data PcpError : Type 0 where
  malformed_answer not_carried : PcpError

-- An IPv4 address is written inside IPv6.
abbrev pub four_in_six : Bytes
four_in_six = replicate 10 0 ++ 0xFF ∷ 0xFF ∷ []

-- `As16`.
unfoldable pub as_16 : Ip → Bytes
as_16 (v4 a b c d) = four_in_six ++ a ∷ b ∷ c ∷ d ∷ []
as_16 (v6 bs) = bs

-- `AddrFrom16`, then `Unmap` of an IPv4 address in it.
unfoldable pub from_16 : Bytes → Ip
from_16 raw =
    if bytes_eq (take 12 raw) four_in_six
    then v4 (byte_at raw 12) (byte_at raw 13) (byte_at raw 14) (byte_at raw 15)
    else v6 raw

unfoldable pub pcp_request : ℕ → ℕ → Ip → Bytes → Bytes
pcp_request opcode lifetime client payload =
    (pcp_version ∷ opcode ∷ 0 ∷ 0 ∷ put_u32 (lifetime % 2 ^ 32)) ++ (as_16 client ++ payload)

pub record PcpResponse : Type 0 where
  pub opcode : ℕ
  pub result : ℕ
  pub lifetime : ℕ
  pub epoch : ℕ
  pub payload : Bytes

unfoldable pub parse_pcp_response : Bytes → Result PcpError PcpResponse
parse_pcp_response wire =
    if ltb (length wire) pcp_header_size
    then err malformed_answer
    else if not (byte_at wire 0 == pcp_version)
    then err malformed_answer
    else if ltb (byte_at wire 1) pcp_response_r
    then err malformed_answer
    else ok (record {
      opcode = byte_at wire 1 - pcp_response_r;
      result = byte_at wire 3;
      lifetime = u32_at wire 4;
      epoch = u32_at wire 8;
      payload = drop pcp_header_size wire;
    })

-- A nonce of twelve bytes is taken as it is.
unfoldable pub map_payload : Bytes → ℕ → ℕ → ℕ → Option Ip → Bytes
map_payload nonce protocol internal_port suggested_port suggested_ip =
    nonce
    ++ ((protocol ∷ 0 ∷ 0 ∷ 0 ∷ put_u16 internal_port)
        ++ (put_u16 suggested_port
            ++ elim suggested_ip [ none ↦ replicate 16 0 | some ip ↦ as_16 ip ]))

pub record MapResult : Type 0 where
  pub nonce : Bytes
  pub protocol : ℕ
  pub internal_port : ℕ
  pub external_port : ℕ
  pub external_ip : Ip

unfoldable pub parse_map_payload : Bytes → Result PcpError MapResult
parse_map_payload payload =
    if ltb (length payload) map_payload_size
    then err malformed_answer
    else ok (record {
      nonce = take 12 payload;
      protocol = byte_at payload 12;
      internal_port = u16_at payload 16;
      external_port = u16_at payload 18;
      external_ip = from_16 (take 16 (drop 20 payload));
    })

unfoldable pub natpmp_address_request : Bytes
natpmp_address_request = natpmp_version ∷ 0 ∷ []

unfoldable pub natpmp_opcode : ℕ → Result PcpError ℕ
natpmp_opcode protocol =
    if protocol == protocol_udp
    then ok 1
    else if protocol == protocol_tcp
    then ok 2
    else err not_carried

unfoldable pub natpmp_map_request : ℕ → ℕ → ℕ → ℕ → Result PcpError Bytes
natpmp_map_request protocol internal_port suggested_port lifetime = elim (natpmp_opcode protocol) [
  | err e ↦ err e
  | ok opcode ↦ ok (
      (natpmp_version ∷ opcode ∷ 0 ∷ 0 ∷ put_u16 internal_port)
      ++ (put_u16 suggested_port ++ put_u32 (lifetime % 2 ^ 32)))
]

pub record NatpmpHeader : Type 0 where
  pub opcode : ℕ
  pub result : ℕ
  pub epoch : ℕ
  pub body : Bytes

unfoldable pub parse_natpmp_response : Bytes → Result PcpError NatpmpHeader
parse_natpmp_response wire =
    if ltb (length wire) 8
    then err malformed_answer
    else if not (byte_at wire 0 == natpmp_version)
    then err malformed_answer
    else if ltb (byte_at wire 1) natpmp_response
    then err malformed_answer
    else ok (record {
      opcode = byte_at wire 1 - natpmp_response;
      result = u16_at wire 2;
      epoch = u32_at wire 4;
      body = drop 8 wire;
    })

unfoldable pub parse_natpmp_address : Bytes → Result PcpError Ip
parse_natpmp_address wire =
    if ltb (length wire) 12
    then err malformed_answer
    else ok (v4 (byte_at wire 8) (byte_at wire 9) (byte_at wire 10) (byte_at wire 11))

pub record NatpmpMapResult : Type 0 where
  pub internal_port : ℕ
  pub external_port : ℕ
  pub lifetime : ℕ

unfoldable pub parse_natpmp_map : Bytes → Result PcpError NatpmpMapResult
parse_natpmp_map wire =
    if ltb (length wire) 16
    then err malformed_answer
    else ok (record {
      internal_port = u16_at wire 8;
      external_port = u16_at wire 10;
      lifetime = u32_at wire 12;
    })
