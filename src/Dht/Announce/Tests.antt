-- ===== src/Dht/Announce/Tests.antt =====
-- One node that gives a token and takes the address, for `Announce` of pkg/dht/lookup.go.
use vapora.Base.{◌≡◌, refl, true, none, some, [], ◌∷◌, replicate, bytes_eq}
use vapora.Net.{v4, addr_eq, ip_eq}
use vapora.Dht.Bencode.{text, no_entries, entry, get_text, get_list, get}
use vapora.Dht.Node.{Node, closer}
use vapora.Dht.Lookup.{
  Network, not_announced, search_from, search_rounds, next, sort_nodes, sort_node, pick, ask_all,
  ask, fold_reply, reply_id, name_node, same_addr,
}
use vapora.Dht.Announce.{announce, announcements, accepted}

abbrev seed : Node
seed = record { id = replicate 20 0; addr = record { ip = v4 203 0 113 1; port = 6881 } }

abbrev with_token : Network
with_token round node =
    some (entry (b't' ∷ b'o' ∷ b'k' ∷ b'e' ∷ b'n' ∷ []) (text (7 ∷ [])) no_entries)

abbrev without : Network
without round node = some no_entries

announced_run :
    announce with_token (λ addr args. true) (replicate 20 3) 4000 (seed ∷ []) ≡ ([], none)
unfolding announce announcements accepted search_from search_rounds next sort_nodes sort_node pick
    ask_all ask fold_reply reply_id name_node same_addr get_text get_list get bytes_eq addr_eq ip_eq
    closer
announced_run = refl

refused_run :
    announce without (λ addr args. true) (replicate 20 3) 4000 (seed ∷ [])
    ≡ ([], some not_announced)
unfolding announce announcements accepted search_from search_rounds next sort_nodes sort_node pick
    ask_all ask fold_reply reply_id name_node same_addr get_text get_list get bytes_eq addr_eq ip_eq
    closer
refused_run = refl
