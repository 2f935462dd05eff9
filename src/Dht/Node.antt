-- ===== src/Dht/Node.antt =====
-- pkg/dht/node.go: identities under the XOR metric, and addresses in the network's compact form.
pub mod Ranges
pub mod Compact
pub mod Nearest
mod Tests
use vapora.Base.{
  ℕ, zero, suc, ◌+◌, ◌*◌, ◌%◌, ◌/◌, Bool, true, false, not, ◌&&◌, ◌||◌, Option, none, some, List,
  [], ◌∷◌, ◌++◌, ltb, leb, ◌==◌, if◌then◌else◌, length, take, drop, Bytes, bytes_eq,
}
use vapora.Base.Wire.{byte_at, put_u16, u16_at}
use vapora.Net.{Ip, v4, v6, UdpAddr, to_4}
use vapora.Dht.Bencode.{Value, text, number, list_of, dict_of, Items, no_items, item}
use Prim.Native.Nat.{bit_xor}

abbrev pub id_size : ℕ
id_size = 20

abbrev pub compact_node : ℕ
compact_node = id_size + 6

abbrev pub compact_peer : ℕ
compact_peer = 6

pub record Node : Type 0 where
  pub id : Bytes
  pub addr : UdpAddr

-- The bytes of three ids from the front; an id that is shorter has none left.
unfoldable pub closer : Bytes → Bytes → Bytes → Bool
closer (a ∷ as') (b ∷ bs) (t ∷ ts) =
    let further = closer as' bs ts in
    if not (bit_xor a t == bit_xor b t) then ltb (bit_xor a t) (bit_xor b t) else further
closer _ _ _ = false

-- The four bytes of an IPv4 address that can be a peer on the internet.
unfoldable pub routable_4 : ℕ → ℕ → Bool
routable_4 a b =
    if a == 0 || a == 10 || a == 127
    then false
    else if a == 169 && b == 254
    then false
    else if a == 172 && leb 16 b && leb b 31
    then false
    else if a == 192 && b == 168
    then false
    else if a == 100 && leb 64 b && leb b 127
    then false
    else if leb 224 a
    then false
    else true

unfoldable pub routable : Ip → Bool
routable (v4 a b c d) = routable_4 a b
routable (v6 bs) = false

unfoldable pub parse_addr : Bytes → Option UdpAddr
parse_addr packed =
    let port = u16_at packed 4 in
    let ip = v4 (byte_at packed 0) (byte_at packed 1) (byte_at packed 2) (byte_at packed 3) in
    if ltb (length packed) compact_peer
    then none
    else if port == 0
    then none
    else if not (routable ip)
    then none
    else some (record { ip = ip; port = port })

unfoldable pub pack_addr : UdpAddr → Bytes
pack_addr addr = elim (to_4 addr.ip) [ none ↦ [] | some ipv4 ↦ ipv4 ++ put_u16 addr.port ]

-- A node is kept if its address is one.
unfoldable pub keep_node : Bytes → Option UdpAddr → List Node → List Node
keep_node id none rest = rest
keep_node id (some addr) rest = record { id = id; addr = addr } ∷ rest

-- The loop of `parseNodes`, on fuel.
unfoldable pub nodes_of : ℕ → Bytes → List Node
nodes_of zero packed = []
nodes_of (suc f) packed =
    let rest = nodes_of f (drop compact_node packed) in
    if ltb (length packed) compact_node
    then []
    else keep_node (take id_size packed) (parse_addr (take 6 (drop id_size packed))) rest

unfoldable pub parse_nodes : Bytes → List Node
parse_nodes packed = nodes_of (length packed) packed

unfoldable pub keep_peer : Option UdpAddr → List UdpAddr → List UdpAddr
keep_peer none rest = rest
keep_peer (some addr) rest = addr ∷ rest

unfoldable pub parse_peers : Items → List UdpAddr
parse_peers no_items = []
parse_peers (item (text packed) vs) = keep_peer (parse_addr packed) (parse_peers vs)
parse_peers (item (number n) vs) = parse_peers vs
parse_peers (item (list_of us) vs) = parse_peers vs
parse_peers (item (dict_of d) vs) = parse_peers vs
