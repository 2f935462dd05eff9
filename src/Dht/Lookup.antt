-- ===== src/Dht/Lookup.antt =====
-- pkg/dht/lookup.go: the walk towards a key. What the network answers is a function, which says for a
-- round and a node whether a reply came; the questions of one round, which the code asks at once,
-- are folded in one after the other. `asked` is the map's keys, in the order they were put in.
pub mod Bounds
mod Tests
use vapora.Base.{
  ℕ, zero, suc, ◌+◌, ◌*◌, Bool, true, false, not, ◌&&◌, Option, none, some, List, [], ◌∷◌, ◌++◌,
  ltb, ◌==◌, if◌then◌else◌, length, take, replicate, Bytes, bytes_eq, Result, ok, err,
}
use vapora.Base.Dict.{lookup, insert}
use vapora.Net.{Ip, UdpAddr, addr_eq, contains_addr, to_4}
use vapora.Dht.Bencode.{Dict, Items, get_text, get_list}
use vapora.Dht.Node.{Node, closer, parse_nodes, parse_peers, id_size}

abbrev pub alpha : ℕ
alpha = 3

abbrev pub closest : ℕ
closest = 8

abbrev pub rounds : ℕ
rounds = 12

pub data LookupError : Type 0 where
  no_nodes not_announced : LookupError

pub record Found : Type 0 where
  pub peers : List UdpAddr
  pub near : List Node
  pub tokens : List (UdpAddr × Bytes)
  pub asked : List UdpAddr
  pub answered : ℕ

abbrev pub opt_eq : Option Bytes → Option Bytes → Bool
opt_eq none none = true
opt_eq (some a) (some b) = bytes_eq a b
opt_eq _ _ = false

-- `sameAddr` of two addresses that are there.
unfoldable pub same_addr : UdpAddr → UdpAddr → Bool
same_addr a b = a.port == b.port && opt_eq (to_4 a.ip) (to_4 b.ip)

unfoldable pub contains_same : List UdpAddr → UdpAddr → Bool
contains_same [] addr = false
contains_same (a ∷ as') addr = if same_addr a addr then true else contains_same as' addr

unfoldable pub contains_node : List Node → Node → Bool
contains_node [] node = false
contains_node (n ∷ ns) node = if same_addr n.addr node.addr then true else contains_node ns node

-- `sort.SliceStable` by `closer`: equals keep their order.
unfoldable pub sort_node : Bytes → Node → List Node → List Node
sort_node key node [] = node ∷ []
sort_node key node (n ∷ ns) =
    let later = sort_node key node ns in
    if closer n.id node.id key then n ∷ later else node ∷ n ∷ ns

unfoldable pub sort_nodes : Bytes → List Node → List Node
sort_nodes key [] = []
sort_nodes key (n ∷ ns) = sort_node key n (sort_nodes key ns)

-- The loop of `next`, with the places left in the batch.
unfoldable pub pick : List Node → ℕ → List UdpAddr → List Node × List UdpAddr
pick [] left asked = ([], asked)
pick (n ∷ ns) zero asked = ([], asked)
pick (n ∷ ns) (suc left) asked =
    let skipped = pick ns (suc left) asked in
    let (batch, asked') = pick ns left (asked ++ n.addr ∷ []) in
    if contains_addr asked n.addr then skipped else (n ∷ batch, asked')

unfoldable pub next : Bytes → Found → List Node × Found
next key f =
    let near = take (closest * 4) (sort_nodes key f.near) in
    let (batch, asked) = pick near alpha f.asked in (batch, record f { near = near; asked = asked })

unfoldable pub add_peers : List UdpAddr → List UdpAddr → List UdpAddr
add_peers known [] = known
add_peers known (p ∷ ps) = add_peers (if contains_same known p then known else known ++ p ∷ []) ps

unfoldable pub add_nodes : List Node → List Node → List Node
add_nodes known [] = known
add_nodes known (n ∷ ns) = add_nodes (if contains_node known n then known else known ++ n ∷ []) ns

unfoldable pub name_node : UdpAddr → Bytes → List Node → List Node
name_node addr id [] = []
name_node addr id (n ∷ ns) =
    (if same_addr n.addr addr then record n { id = id } else n) ∷ name_node addr id ns

unfoldable pub reply_id : Dict → Bytes
reply_id reply = elim (get_text reply (b'i' ∷ b'd' ∷ [])) [
  | none ↦ replicate id_size 0
  | some raw ↦ if length raw == id_size then raw else replicate id_size 0
]

-- `ask` once a reply is there.
unfoldable pub fold_reply : Found → Node → Dict → Found
fold_reply f node reply = record {
  peers = elim (get_list reply (b'v' ∷ b'a' ∷ b'l' ∷ b'u' ∷ b'e' ∷ b's' ∷ [])) [
    | none ↦ f.peers
    | some values ↦ add_peers f.peers (parse_peers values)
  ];
  near =
      name_node node.addr (reply_id reply)
        (elim (get_text reply (b'n' ∷ b'o' ∷ b'd' ∷ b'e' ∷ b's' ∷ [])) [
          | none ↦ f.near
          | some packed ↦ add_nodes f.near (parse_nodes packed)
        ]);
  tokens = elim (get_text reply (b't' ∷ b'o' ∷ b'k' ∷ b'e' ∷ b'n' ∷ [])) [
    | none ↦ f.tokens
    | some token ↦ insert addr_eq node.addr token f.tokens
  ];
  asked = f.asked;
  answered = f.answered + 1;
}

-- What the network says to `get_peers`, in a round, at a node.
abbrev pub Network : Type 0
Network = ℕ → Node → Option Dict

unfoldable pub ask : Found → Node → Option Dict → Found
ask f node none = f
ask f node (some reply) = fold_reply f node reply

unfoldable pub ask_all : Network → ℕ → Found → List Node → Found
ask_all network round f [] = f
ask_all network round f (n ∷ ns) = ask_all network round (ask f n (network round n)) ns

unfoldable pub search_rounds : Network → Bytes → ℕ → Found → Found
search_rounds network key zero f = f
search_rounds network key (suc left) f =
    let (batch, f') = next key f in
    let rest = search_rounds network key left (ask_all network left f' batch) in
    elim batch [ [] ↦ f' | ◌∷◌ n ns ↦ rest ]

abbrev pub start_from : List Node → Found
start_from seeds = record { peers = []; near = seeds; tokens = []; asked = []; answered = 0 }

-- `search` from the seeds that `seed` resolved; a name that resolves nowhere is skipped.
unfoldable pub search_from : Network → Bytes → List Node → Result LookupError Found
search_from network key seeds =
    if length seeds == 0
    then err no_nodes
    else ok (search_rounds network key rounds (start_from seeds))

-- `Lookup`.
unfoldable pub lookup_key : Network → Bytes → List Node → Result LookupError (List UdpAddr)
lookup_key network key seeds = elim (search_from network key seeds) [
  | err e ↦ err e
  | ok f ↦ if f.answered == 0 then err no_nodes else ok f.peers
]
