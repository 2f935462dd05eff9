-- ===== src/Pcp/Client/Detect.antt =====
-- `Detect` and `confirmNATPMP` of pkg/pcp/client.go.
use vapora.Base.{ℕ, not, ◌&&◌, [], ◌==◌, if◌then◌else◌, Bytes, Result, ok, err}
use vapora.Pcp.{pcp_request, parse_pcp_response, natpmp_address_request, parse_natpmp_response}
use vapora.Pcp.Client.{
  Version, version_pcp, version_natpmp, ClientError, wrong_opcode, not_supported, bad_answer,
  refused, Conn, Client, exchange, then_read,
}

-- What the answer to the first question says.
pub data Announced : Type 0 where
  speaks_pcp perhaps_natpmp : Announced
  neither : ClientError → Announced

abbrev pub unsupported_version : ℕ
unsupported_version = 1

unfoldable pub read_legacy : Bytes → Announced
read_legacy wire = elim (parse_natpmp_response wire) [
  | err e ↦ neither not_supported
  | ok header ↦
      if not (header.result == unsupported_version) && not (header.result == 0)
      then neither (refused version_natpmp header.result)
      else perhaps_natpmp
]

unfoldable pub read_announce : Bytes → Announced
read_announce wire = elim (parse_pcp_response wire) [
  | err e ↦ read_legacy wire
  | ok response ↦
      if not (response.opcode == 0)
      then neither wrong_opcode
      else if not (response.result == 0)
      then neither (refused version_pcp response.result)
      else speaks_pcp
]

-- `confirmNATPMP`, as the version that it confirms.
unfoldable pub read_confirm : Bytes → Result ClientError Version
read_confirm wire = elim (parse_natpmp_response wire) [
  | err e ↦ err (bad_answer e)
  | ok header ↦
      if not (header.opcode == 0)
      then err wrong_opcode
      else if not (header.result == 0)
      then err (refused version_natpmp header.result)
      else ok version_natpmp
]

unfoldable pub confirm_natpmp : Conn → Result ClientError Version × Conn
confirm_natpmp conn = then_read read_confirm (exchange natpmp_address_request conn)

-- What `Detect` returns, by the answer that it has.
unfoldable pub found_by : Announced → Conn → Result ClientError Version × Conn
found_by speaks_pcp conn = (ok version_pcp, conn)
found_by perhaps_natpmp conn = confirm_natpmp conn
found_by (neither e) conn = (err e, conn)

unfoldable pub found : Result ClientError Bytes × Conn → Result ClientError Version × Conn
found (err e, conn) = (err e, conn)
found (ok wire, conn) = found_by (read_announce wire) conn

-- The version is kept once it is known.
unfoldable pub keep_version : Client → Result ClientError Version → Client
keep_version c (ok version) = record c { version = version }
keep_version c (err e) = c

unfoldable pub detect : Client → Conn → Result ClientError Version × Client × Conn
detect c conn =
    let (result, conn') = found (exchange (pcp_request 0 0 c.internal []) conn) in
    (result, keep_version c result, conn')
