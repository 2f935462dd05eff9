-- ===== src/Dht/Lookup/Tests.antt =====
-- A concrete network for pkg/dht/lookup.go.
use vapora.Base.{ℕ, ◌≡◌, refl, some, [], ◌∷◌, replicate, err}
use vapora.Net.{v4, UdpAddr}
use vapora.Dht.Bencode.{text, list_of, no_items, item, no_entries, entry}
use vapora.Dht.Node.{Node, pack_addr}
use vapora.Dht.Lookup.{Network, search_from, lookup_key, no_nodes}
use vapora.Dht.Lookup.Bounds.{InBounds, search_from-InBounds}

abbrev host : ℕ → UdpAddr
host n = record { ip = v4 203 0 113 n; port = 6881 }

abbrev seed : Node
seed = record { id = replicate 20 0; addr = host 1 }

-- One node, which knows a peer.
abbrev answers : Network
answers round node = some (
    entry (b'v' ∷ b'a' ∷ b'l' ∷ b'u' ∷ b'e' ∷ b's' ∷ [])
      (list_of (item (text (pack_addr (host 9))) no_items)) no_entries)

search_from-InBounds_example : InBounds (search_from answers (replicate 20 3) (seed ∷ []))
search_from-InBounds_example = search_from-InBounds answers (replicate 20 3) (seed ∷ [])

nobody_run : lookup_key answers (replicate 20 3) [] ≡ err no_nodes
unfolding lookup_key search_from
nobody_run = refl
