-- ===== src/Pcp/Client/Port.antt =====
-- `Map`, `Refresh`, `Unmap` and `ExternalIP` of pkg/pcp/client.go.
use vapora.Base.{
  not, Option, none, some, ◌==◌, if◌then◌else◌, Bytes, bytes_eq, replicate, Result, ok, err,
}
use vapora.Net.{Ip}
use vapora.Pcp.{protocol_udp}
use vapora.Pcp.Client.{
  Client, MapRequest, Mapping, ClientError, no_random, Conn, is_natpmp, map_pcp, map_natpmp,
  natpmp_external_ip,
}

abbrev pub no_nonce : Bytes
no_nonce = replicate 12 0

-- A nonce that was not given is drawn, which may fail.
unfoldable pub with_nonce : Option Bytes → MapRequest → Option MapRequest
with_nonce random request =
    if not (bytes_eq request.nonce no_nonce)
    then some request
    else elim random [ none ↦ none | some nonce ↦ some (record request { nonce = nonce }) ]

abbrev pub with_port : MapRequest → MapRequest
with_port request = record request {
  suggested_port =
      if request.suggested_port == 0 then request.internal_port else request.suggested_port;
}

-- `Map`, with the random bytes that it may draw.
unfoldable pub map_with : Client → Option MapRequest → Conn → Result ClientError Mapping × Conn
map_with c none conn = (err no_random, conn)
map_with c (some request) conn =
    if is_natpmp c.version
    then map_natpmp (with_port request) conn
    else map_pcp c (with_port request) conn

unfoldable pub map_port :
    Client → Option Bytes → MapRequest → Conn → Result ClientError Mapping × Conn
map_port c random request conn = map_with c (with_nonce random request) conn

-- `Refresh` and `Unmap`, as the request that each makes.
unfoldable pub refresh_request : Mapping → MapRequest
refresh_request m = record {
  protocol = m.protocol;
  internal_port = m.internal_port;
  suggested_port = m.external_port;
  suggested_ip = m.external_ip;
  lifetime = m.lifetime;
  nonce = m.nonce;
}

unfoldable pub unmap_request : Mapping → MapRequest
unmap_request m = record (refresh_request m) { suggested_ip = none; lifetime = 0 }

abbrev some_ip : Result ClientError Ip → Result ClientError (Option Ip)
some_ip (ok ip) = ok (some ip)
some_ip (err e) = err e

abbrev ip_of : Result ClientError Mapping → Result ClientError (Option Ip)
ip_of (ok m) = ok m.external_ip
ip_of (err e) = err e

-- `ExternalIP`: of a gateway that speaks PCP, by a mapping that lasts no time.
unfoldable pub external_ip : Client → Option Bytes → Conn → Result ClientError (Option Ip) × Conn
external_ip c random conn =
    let (ip, conn') = natpmp_external_ip conn in
    let probe : MapRequest = record {
      protocol = protocol_udp;
      internal_port = 9;
      suggested_port = 0;
      suggested_ip = none;
      lifetime = 0;
      nonce = no_nonce;
    } in
    let (mapping, conn'') = map_port c random probe conn in
    if is_natpmp c.version then (some_ip ip, conn') else (ip_of mapping, conn'')
