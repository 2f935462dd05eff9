-- ===== src/Pcp/Client/Granted.antt =====
-- pkg/pcp/client.go: a mapping that is reported was granted by the router, for the nonce that is kept.
use vapora.Base.{
  ℕ, zero, suc, ◌<◌, ◌≡◌, refl, sym, ap, ◌∙◌, false, Option, some, List, [], ◌∷◌, ◌++◌, ◌==◌,
  length, Bytes, bytes_eq, bytes_eq_iff, Result, ok, err, Result-cases, Option-cases, Bool-cases,
  inl, inr, arith,
}
use vapora.Pcp.{PcpResponse, MapResult, parse_pcp_response, parse_map_payload}
use vapora.Pcp.Client.{
  ClientError, Try, answered, silent, unsent, Conn, Client, MapRequest, Mapping, is_natpmp,
  attempts, exchange_from, exchange, then_read, read_granted, read_pcp_map, map_pcp, version_pcp,
}
use vapora.Pcp.Client.Port.{with_nonce, map_with, map_port}

-- One of the first so many tries brought these bytes.
abbrev pub Brought : ℕ → Bytes → List Try → Type 0
Brought n wire tries =
    (before : List Try) × (later : List Try) × (tries ≡ before ++ answered wire ∷ later)
    × (length before < n)

exchange_from-Brought :
    (n : ℕ) (request : Bytes) (tries : List Try) (sent : List Bytes) (wire : Bytes)
    → (exchange_from n request tries sent).0 ≡ ok wire
    → Brought n wire tries
unfolding exchange_from
exchange_from-Brought zero request tries sent wire h = absurd (cc)
exchange_from-Brought (suc n) request [] sent wire h =
    let (before, later, e, l) = exchange_from-Brought n request [] (sent ++ request ∷ []) wire h in
    (before, later, e, omega (arith, l))
exchange_from-Brought (suc n) request (answered w ∷ tries) sent wire h =
    let same : w ≡ wire = cc in
    ([], tries, ap (λ (b : Bytes). answered b ∷ tries) same, omega arith)
exchange_from-Brought (suc n) request (silent ∷ tries) sent wire h =
    let (before, later, e, l) =
      exchange_from-Brought n request tries (sent ++ request ∷ []) wire h in
    (silent ∷ before, later, ap (λ (r : List Try). silent ∷ r) e, omega (arith, l))
exchange_from-Brought (suc n) request (unsent ∷ tries) sent wire h = absurd (cc)

then_read-ok {ℓ} :
    {A : Type ℓ}
    → (read : Bytes → Result ClientError A) (r : Result ClientError Bytes × Conn) (a : A)
    → (then_read read r).0 ≡ ok a
    → (wire : Bytes) × (r.0 ≡ ok wire) × (read wire ≡ ok a)
unfolding then_read
then_read-ok read (ok wire, conn) a h = (wire, refl, h)
then_read-ok read (err e, conn) a h = absurd (cc)

-- What the router said of a mapping.
abbrev pub Grants : Bytes → Mapping → Type 0
Grants wire m =
    (response : PcpResponse) × (result : MapResult) × (parse_pcp_response wire ≡ ok response)
    × (response.opcode ≡ 1)
    × (response.result ≡ 0)
    × (parse_map_payload response.payload ≡ ok result)
    × (result.nonce ≡ m.nonce)
    × (m.external_port ≡ result.external_port)
    × (m.external_ip ≡ some result.external_ip)
    × (m.lifetime ≡ response.lifetime)

abbrev granted : MapRequest → PcpResponse → MapResult → Mapping
granted request response result = record {
  version = version_pcp;
  protocol = request.protocol;
  internal_port = result.internal_port;
  external_port = result.external_port;
  external_ip = some result.external_ip;
  lifetime = response.lifetime;
  nonce = request.nonce;
}

ok_same {ℓ} : {A : Type ℓ} (a b : A) → ◌≡◌ {A = Result ClientError A} (ok a) (ok b) → a ≡ b
ok_same a b h = cc

read_granted-ok :
    (request : MapRequest) (response : PcpResponse) (m : Mapping)
    → read_granted request response ≡ ok m
    → (result : MapResult) × (parse_map_payload response.payload ≡ ok result)
      × (result.nonce ≡ request.nonce)
      × (granted request response result ≡ m)
unfolding read_granted
read_granted-ok request response m h = elim (Result-cases (parse_map_payload response.payload)) [
  | inl (e, p) ↦ absurd (cc (rw (p, read_granted) at h))
  | inr (result, p) ↦ elim (Bool-cases (bytes_eq result.nonce request.nonce)) [
    | inl n ↦ (
      result,
      p,
      (bytes_eq_iff result.nonce request.nonce).0 n,
      ok_same _ _ (rw (p, n, read_granted) at h),
    )
    | inr n ↦ absurd (cc (rw (p, n, read_granted) at h))
  ]
]

read_pcp_map-ok :
    (request : MapRequest) (wire : Bytes) (m : Mapping)
    → read_pcp_map request wire ≡ ok m
    → (response : PcpResponse) × (parse_pcp_response wire ≡ ok response)
      × (response.opcode ≡ 1)
      × (response.result ≡ 0)
      × (read_granted request response ≡ ok m)
unfolding read_pcp_map
read_pcp_map-ok request wire m h = elim (Result-cases (parse_pcp_response wire)) [
  | inl (e, p) ↦ absurd (cc (rw (p, read_pcp_map) at h))
  | inr (response, p) ↦ elim (Bool-cases (response.opcode == 1)) [
    | inl o ↦ elim (Bool-cases (response.result == 0)) [
      | inl r ↦ (response, p, ground (arith, o), ground (arith, r), rw (p, o, r, read_pcp_map) at h)
      | inr r ↦ absurd (cc (rw (p, o, r, read_pcp_map) at h))
    ]
    | inr o ↦ absurd (cc (rw (p, o, read_pcp_map) at h))
  ]
]

map_pcp-Grants :
    (c : Client) (request : MapRequest) (conn : Conn) (m : Mapping)
    → (map_pcp c request conn).0 ≡ ok m
    → ((wire : Bytes) × Brought attempts wire conn.tries × Grants wire m)
      × (m.nonce ≡ request.nonce)
unfolding map_pcp exchange
map_pcp-Grants c request conn m h =
    let (wire, came, read) = then_read-ok (read_pcp_map request) _ m h in
    let (response, p, o, r, g) = read_pcp_map-ok request wire m read in
    let (result, q, n, same) = read_granted-ok request response m g in
    let kept = ap (λ (x : Mapping). x.nonce) same in
    (
      (
        wire,
        exchange_from-Brought attempts _ conn.tries conn.sent wire came,
        (
          response,
          result,
          p,
          o,
          r,
          q,
          n ∙ kept,
          sym (ap (λ (x : Mapping). x.external_port) same),
          sym (ap (λ (x : Mapping). x.external_ip) same),
          sym (ap (λ (x : Mapping). x.lifetime) same),
        ),
      ),
      sym kept,
    )

-- A client that does not speak NAT-PMP reports a mapping only if one of the three tries brought an
-- answer to a question for a mapping that says success, and the port, the address and the lifetime
-- are those of the answer, which carries the nonce that is kept with the mapping.
pub map_port-Grants :
    (c : Client) (random : Option Bytes) (request : MapRequest) (conn : Conn) (m : Mapping)
    → is_natpmp c.version ≡ false
    → (map_port c random request conn).0 ≡ ok m
    → (wire : Bytes) × Brought attempts wire conn.tries × Grants wire m
unfolding map_port map_with
map_port-Grants c random request conn m v h = elim (Option-cases (with_nonce random request)) [
  | inl n ↦ absurd (cc (rw n at h))
  | inr (request', n) ↦ (map_pcp-Grants c _ conn m (rw (n, v) at h)).0
]
