-- ===== src/Punch/Roster.antt =====
-- pkg/punch/roster.go: what a member tells others about who is present, as fixed size entries.
pub mod RoundTrip
mod Tests
use vapora.Base.{
  ℕ, zero, suc, ◌+◌, ◌*◌, ◌%◌, ◌^◌, Bool, true, false, not, ◌&&◌, Option, none, some, List, [], ◌∷◌,
  ◌++◌, ltb, ◌==◌, if◌then◌else◌, length, take, drop, replicate, get_or, Bytes, Result, ok, err,
  ◌>>=◌, bytes_eq,
}
use vapora.Base.Wire.{put_u16, u16_at, byte_at}
use vapora.Net.{Ip, v4, v6, UdpAddr, addr_eq, to_4, is_unspecified}
use vapora.Punch.Frame.{Rand, padded}

abbrev pub public_key_size : ℕ
public_key_size = 32

abbrev pub candidate_bytes : ℕ
candidate_bytes = 6

abbrev pub entry_bytes : ℕ
entry_bytes = public_key_size + 2 * candidate_bytes

pub data RosterError : Type 0 where
  roster_too_large malformed_roster : RosterError

-- A public key is its 32 bytes.
pub record Entry : Type 0 where
  pub key : Bytes
  pub addr : Option UdpAddr
  pub local : Option UdpAddr

-- `k == PublicKey{}`.
unfoldable pub is_zero : Bytes → Bool
unfolding bytes_eq
is_zero key = bytes_eq key (replicate public_key_size 0)

-- `Entry.Candidates`. The code compares with `sameEndpoint`, which would fault on a nil `Addr`;
-- that is the third case, which no parsed entry reaches.
pub entry_candidates : Entry → List UdpAddr
entry_candidates e = elim e.addr [
  | none ↦ elim e.local [ none ↦ [] | some local ↦ local ∷ [] ]
  | some addr ↦ elim e.local [
    | none ↦ addr ∷ []
    | some local ↦ if not (addr_eq local addr) then addr ∷ local ∷ [] else addr ∷ []
  ]
]

-- `appendCandidate`, as what it appends.
pub candidate : Option UdpAddr → Bytes
candidate none = replicate candidate_bytes 0
candidate (some addr) = elim (to_4 addr.ip) [
  | none ↦ replicate 4 0 ++ put_u16 (addr.port % 2 ^ 16)
  | some ipv4 ↦ ipv4 ++ put_u16 (addr.port % 2 ^ 16)
]

pub read_candidate : Bytes → Option UdpAddr
read_candidate record' =
    let port = u16_at record' 4 in
    let ip = v4 (byte_at record' 0) (byte_at record' 1) (byte_at record' 2) (byte_at record' 3) in
    if port == 0
    then none
    else if is_unspecified ip
    then none
    else some (record { ip = ip; port = port })

marshal_entry : Entry → Bytes
marshal_entry entry = entry.key ++ (candidate entry.addr ++ candidate entry.local)

marshal_entries : List Entry → Bytes
marshal_entries [] = []
marshal_entries (e ∷ es) = marshal_entry e ++ marshal_entries es

pub marshal : Rand → List Entry → Bytes
unfolding marshal_entries
marshal rand roster = padded rand ((length roster % 256) ∷ marshal_entries roster)

parse_entry : Bytes → Result RosterError Entry
parse_entry record' =
    let key = take public_key_size record' in
    let addr = read_candidate (take candidate_bytes (drop public_key_size record')) in
    let local = read_candidate (drop (public_key_size + candidate_bytes) record') in
    if is_zero key then err malformed_roster else elim addr [
      | none ↦ err malformed_roster
      | some a ↦ ok (record { key = key; addr = some a; local = local })
    ]

-- The loop over `i`, with the count of entries left.
parse_entries : ℕ → ℕ → Bytes → Result RosterError (List Entry)
parse_entries zero i blob = ok []
parse_entries (suc left) i blob = do
  entry ← parse_entry (take entry_bytes (drop (i * entry_bytes) blob))
  rest ← parse_entries left (i + 1) blob
  ok (entry ∷ rest)

parse_counted : ℕ → ℕ → Bytes → Result RosterError (List Entry)
parse_counted count max blob =
    if ltb max count
    then err roster_too_large
    else if ltb (1 + length blob) (1 + count * entry_bytes)
    then err malformed_roster
    else parse_entries count 0 blob

pub parse_roster : Bytes → ℕ → Result RosterError (List Entry)
unfolding parse_counted
parse_roster [] max = err malformed_roster
parse_roster (count ∷ blob) max = parse_counted count max blob
