-- ===== src/Dht/Node/Compact.antt =====
-- pkg/dht/node.go: what is packed is read back, and nothing that is not a peer is read.
use vapora.Base.{
  ℕ, zero, suc, ◌+◌, ◌*◌, ◌%◌, ◌/◌, ◌^◌, ◌≤◌, ◌<◌, ◌≡◌, inl, inr, refl, sym, ap, ◌∙◌, true, some,
  List, [], ◌∷◌, ◌++◌, append_assoc, append-nil, length, take, drop, take-append, drop-append,
  length-append, All, arith, Bytes, Option-cases,
}
use vapora.Base.Wire.{byte_at}
use vapora.Net.{Ip, v4, v6, UdpAddr}
use vapora.Dht.Node.Ranges.{IsOutside, routable_4-is_outside}
use vapora.Dht.Node.{
  Node, routable, parse_addr, pack_addr, keep_node, nodes_of, parse_nodes, id_size, compact_node,
}

-- What a node may be told of: an IPv4 address outside the ranges named in `closed_ranges`, with a
-- port.
abbrev pub IsPeer : UdpAddr → Type 0
IsPeer addr = IsOutside addr.ip × (0 < addr.port) × (addr.port < 2 ^ 16)

-- The same with the code's own test.
abbrev pub Passes : UdpAddr → Type 0
Passes addr = (routable addr.ip ≡ true) × (0 < addr.port) × (addr.port < 2 ^ 16)

-- An address that may be a peer comes back from its compact form, whatever follows it.
pub parse_addr-pack_addr :
    (addr : UdpAddr) (rest : Bytes) → Passes addr → parse_addr (pack_addr addr ++ rest) ≡ some addr
unfolding parse_addr pack_addr routable
parse_addr-pack_addr addr rest h = on addr.ip addr.port h
  where
    on :
        (ip : Ip) (port : ℕ)
        → Passes (record { ip = ip; port = port })
        → parse_addr (pack_addr (record { ip = ip; port = port }) ++ rest)
          ≡ some (record { ip = ip; port = port })
    on (v4 a b c d) port (r, p, w) =
        let port_is : port / 256 % 256 * 256 + port % 256 ≡ port = omega arith in
        rw port_is
          (ground (arith, length-append (pack_addr (record { ip = v4 a b c d; port = port })) rest))
    on (v6 bs) port (r, p, w) = absurd cc

abbrev pub pack_node : Node → Bytes
pack_node n = n.id ++ pack_addr n.addr

abbrev pub pack_nodes : List Node → Bytes
pack_nodes [] = []
pack_nodes (n ∷ ns) = pack_node n ++ pack_nodes ns

abbrev pub IsNode : Node → Type 0
IsNode n = (length n.id ≡ id_size) × Passes n.addr

length-pack_addr : (addr : UdpAddr) → Passes addr → length (pack_addr addr) ≡ 6
unfolding pack_addr routable
length-pack_addr addr h = on addr.ip addr.port h
  where
    on :
        (ip : Ip) (port : ℕ)
        → Passes (record { ip = ip; port = port })
        → length (pack_addr (record { ip = ip; port = port })) ≡ 6
    on (v4 a b c d) port h' = refl
    on (v6 bs) port (r, p, w) = absurd cc

nodes_of-pack_node :
    (f : ℕ) (n : Node) (rest : Bytes)
    → IsNode n
    → nodes_of (suc f) (pack_node n ++ rest) ≡ n ∷ nodes_of f rest
unfolding nodes_of keep_node
nodes_of-pack_node f n rest (hid, hp) =
    let six = length-pack_addr n.addr hp in
    let split = append_assoc n.id (pack_addr n.addr) rest in
    let id_is : take 20 (n.id ++ (pack_addr n.addr ++ rest)) ≡ n.id =
      take-append n.id (pack_addr n.addr ++ rest) 20 hid in
    let tail_is : drop 20 (n.id ++ (pack_addr n.addr ++ rest)) ≡ pack_addr n.addr ++ rest =
      drop-append n.id (pack_addr n.addr ++ rest) 20 hid in
    let addr_is : take 6 (pack_addr n.addr ++ rest) ≡ pack_addr n.addr =
      take-append (pack_addr n.addr) rest 6 six in
    let rest_is : drop 26 ((n.id ++ pack_addr n.addr) ++ rest) ≡ rest =
      drop-append (n.id ++ pack_addr n.addr) rest 26
        (omega (arith, length-append n.id (pack_addr n.addr))) in
    let parsed : parse_addr (pack_addr n.addr) ≡ some n.addr =
      ap parse_addr (sym (append-nil (pack_addr n.addr))) ∙ parse_addr-pack_addr n.addr [] hp in
    let long : length ((n.id ++ pack_addr n.addr) ++ rest) ≡ 26 + length rest = omega (
      arith,
      length-append (n.id ++ pack_addr n.addr) rest,
      length-append n.id (pack_addr n.addr),
    ) in
    let whole : take 20 ((n.id ++ pack_addr n.addr) ++ rest) ≡ n.id = ap (take 20) split ∙ id_is in
    let behind : take 6 (drop 20 ((n.id ++ pack_addr n.addr) ++ rest)) ≡ pack_addr n.addr =
      ap (λ (t : Bytes). take 6 (drop 20 t)) split ∙ ap (take 6) tail_is ∙ addr_is in
    rw (whole, behind, rest_is, parsed) (ground (arith, long))

length-pack_node : (n : Node) → IsNode n → length (pack_node n) ≡ compact_node
length-pack_node n (hid, hp) =
    omega (arith, hid, length-append n.id (pack_addr n.addr), length-pack_addr n.addr hp)

nodes_of-short : (f : ℕ) (tail : Bytes) → length tail < compact_node → nodes_of f tail ≡ []
unfolding nodes_of
nodes_of-short zero tail t = refl
nodes_of-short (suc f) tail t = ground arith

nodes_of-pack_nodes :
    (f : ℕ) (ns : List Node) (tail : Bytes)
    → All IsNode ns
    → length tail < compact_node
    → length (pack_nodes ns) ≤ f
    → nodes_of f (pack_nodes ns ++ tail) ≡ ns
nodes_of-pack_nodes f [] tail h t l = nodes_of-short f tail t
nodes_of-pack_nodes zero (n ∷ ns) tail (h, hs) t l =
    absurd (omega (arith, length-pack_node n h, length-append (pack_node n) (pack_nodes ns)))
nodes_of-pack_nodes (suc f) (n ∷ ns) tail (h, hs) t l =
    ap (nodes_of (suc f)) (append_assoc (pack_node n) (pack_nodes ns) tail)
    ∙ nodes_of-pack_node f n (pack_nodes ns ++ tail) h
    ∙ ap (◌∷◌ n) (
        nodes_of-pack_nodes f ns tail hs t
          (omega (arith, length-pack_node n h, length-append (pack_node n) (pack_nodes ns))))

-- Nodes packed end to end are all read, in order, and a tail shorter than a node is passed over.
pub parse_nodes-pack_nodes :
    (ns : List Node) (tail : Bytes)
    → All IsNode ns
    → length tail < compact_node
    → parse_nodes (pack_nodes ns ++ tail) ≡ ns
unfolding parse_nodes
parse_nodes-pack_nodes ns tail h t =
    nodes_of-pack_nodes (length (pack_nodes ns ++ tail)) ns tail h t
      (omega (arith, length-append (pack_nodes ns) tail))

byte_at-lt : (bs : Bytes) (i : ℕ) → All (λ b. b < 256) bs → byte_at bs i < 256
byte_at-lt [] i h = omega arith
byte_at-lt (b ∷ bs) zero (h, hs) = h
byte_at-lt (b ∷ bs) (suc i) (h, hs) = byte_at-lt bs i hs

parse_addr-IsPeer :
    (packed : Bytes) (addr : UdpAddr)
    → All (λ b. b < 256) packed
    → parse_addr packed ≡ some addr
    → IsPeer addr
unfolding parse_addr routable
parse_addr-IsPeer packed addr bytes h =
    let at = λ (i : ℕ). byte_at-lt packed i bytes in
    ground (
      arith,
      at 4,
      at 5,
      routable_4-is_outside (byte_at packed 0) (byte_at packed 1) (byte_at packed 2)
          (byte_at packed 3) (at 0) (at 1) (at 2) (at 3),
    )

All-take : (n : ℕ) (bs : Bytes) → All (λ b. b < 256) bs → All (λ b. b < 256) (take n bs)
All-take zero bs h = tt
All-take (suc n) [] h = tt
All-take (suc n) (b ∷ bs) (h, hs) = (h, All-take n bs hs)

All-drop : (n : ℕ) (bs : Bytes) → All (λ b. b < 256) bs → All (λ b. b < 256) (drop n bs)
All-drop zero bs h = h
All-drop (suc n) [] h = tt
All-drop (suc n) (b ∷ bs) (h, hs) = All-drop n bs hs

nodes_of-IsPeer :
    (f : ℕ) (packed : Bytes)
    → All (λ b. b < 256) packed
    → All (λ n. IsPeer n.addr) (nodes_of f packed)
unfolding nodes_of keep_node
nodes_of-IsPeer zero packed h = tt
nodes_of-IsPeer (suc f) packed h =
    let rest = nodes_of-IsPeer f (drop 26 packed) (All-drop 26 packed h) in
    elim (Option-cases (parse_addr (take 6 (drop 20 packed)))) [
      | inl e ↦ ground (arith, rest)
      | inr (addr, e) ↦ ground (
        arith,
        rest,
        parse_addr-IsPeer (take 6 (drop 20 packed)) addr
            (All-take 6 (drop 20 packed) (All-drop 20 packed h)) e,
      )
    ]

-- Whatever bytes a stranger sends as nodes, every address read out of them is an IPv4 address with a
-- port from 1 to 65535 that lies, as a number, in none of 0.0.0.0/8, 10.0.0.0/8, 100.64.0.0/10,
-- 127.0.0.0/8, 169.254.0.0/16, 172.16.0.0/12, 192.168.0.0/16 and 224.0.0.0/3. Other ranges that are
-- set apart, such as those for documentation, are not among these.
pub parse_nodes-IsPeer :
    (packed : Bytes) → All (λ b. b < 256) packed → All (λ n. IsPeer n.addr) (parse_nodes packed)
unfolding parse_nodes
parse_nodes-IsPeer packed h = nodes_of-IsPeer (length packed) packed h
