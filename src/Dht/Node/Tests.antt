-- ===== src/Dht/Node/Tests.antt =====
-- Concrete nodes and peers of pkg/dht/node.go.
use vapora.Base.{◌<◌, ◌≡◌, refl, [], ◌∷◌, ◌++◌, replicate, All, arith, Bytes}
use vapora.Base.Int.{pos}
use vapora.Net.{v4, UdpAddr}
use vapora.Dht.Bencode.{text, number, no_items, item}
use vapora.Dht.Node.{
  Node, routable, routable_4, parse_addr, pack_addr, parse_nodes, parse_peers, nodes_of, keep_node,
  keep_peer,
}
use vapora.Dht.Node.Compact.{IsPeer, parse_nodes-IsPeer}

abbrev near : UdpAddr
near = record { ip = v4 203 0 113 7; port = 6881 }

abbrev node : Node
node = record { id = replicate 20 5; addr = near }

-- Two nodes, one of them at 192.168.1.1, and a byte too many.
abbrev told : Bytes
told =
    replicate 20 5
    ++ (203 ∷ 0 ∷ 113 ∷ 7 ∷ 0x1A ∷ 0xE1 ∷ [])
    ++ (replicate 20 6 ++ (192 ∷ 168 ∷ 1 ∷ 1 ∷ 0 ∷ 80 ∷ 9 ∷ []))

told_run : parse_nodes told ≡ node ∷ []
unfolding parse_nodes nodes_of keep_node parse_addr routable routable_4
told_run = refl

told_bytes : All (λ b. b < 256) told
told_bytes = omega arith

parse_nodes-IsPeer_example : All (λ n. IsPeer n.addr) (parse_nodes told)
parse_nodes-IsPeer_example = parse_nodes-IsPeer told told_bytes

-- A list with a private address and a number in it.
peers_run :
    parse_peers (
      item
        (text (192 ∷ 168 ∷ 1 ∷ 1 ∷ 0 ∷ 80 ∷ []))
        (item (number (pos 3)) (item (text (pack_addr near)) no_items)))
    ≡ near ∷ []
unfolding parse_peers keep_peer parse_addr pack_addr routable routable_4
peers_run = refl
