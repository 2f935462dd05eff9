-- ===== src/Dht/Announce.antt =====
-- pkg/dht/lookup.go, `Announce`: the address is left with the nodes that the search ended with, as
-- far as they gave a token. Whether a node takes it is a function.
mod Tests
use vapora.Base.{
  ℕ, zero, suc, ◌+◌, Bool, true, false, Option, none, some, List, [], ◌∷◌, ◌==◌, if◌then◌else◌,
  Bytes, Result, ok, err,
}
use vapora.Base.Int.{pos}
use vapora.Base.Dict.{lookup}
use vapora.Net.{UdpAddr, addr_eq}
use vapora.Dht.Bencode.{Dict, entry, no_entries, text, number}
use vapora.Dht.Node.{Node}
use vapora.Dht.Lookup.{Found, LookupError, no_nodes, not_announced, Network, search_from}

-- The arguments of `announce_peer`, in the order of their keys.
abbrev pub announce_args : Bytes → ℕ → Bytes → Dict
announce_args key port token =
    entry (b'i' ∷ b'm' ∷ b'p' ∷ b'l' ∷ b'i' ∷ b'e' ∷ b'd' ∷ b'_' ∷ b'p' ∷ b'o' ∷ b'r' ∷ b't' ∷ [])
      (number (pos 0))
      (entry (b'i' ∷ b'n' ∷ b'f' ∷ b'o' ∷ b'_' ∷ b'h' ∷ b'a' ∷ b's' ∷ b'h' ∷ []) (text key) (
        entry (b'p' ∷ b'o' ∷ b'r' ∷ b't' ∷ []) (number (pos port))
          (entry (b't' ∷ b'o' ∷ b'k' ∷ b'e' ∷ b'n' ∷ []) (text token) no_entries)))

-- The loop over the nodes: who is asked to keep the address, and with which arguments.
unfoldable pub announcements :
    Bytes → ℕ → List (UdpAddr × Bytes) → List Node → List (UdpAddr × Dict)
announcements key port tokens [] = []
announcements key port tokens (n ∷ ns) =
    let rest = announcements key port tokens ns in
    elim (lookup addr_eq n.addr tokens) [
      | none ↦ rest
      | some token ↦ (n.addr, announce_args key port token) ∷ rest
    ]

unfoldable pub accepted : (UdpAddr → Dict → Bool) → List (UdpAddr × Dict) → ℕ
accepted takes [] = 0
accepted takes ((addr, args) ∷ rest) = (if takes addr args then 1 else 0) + accepted takes rest

-- `Announce`: the peers it learns of, and the error.
unfoldable pub announce :
    Network → (UdpAddr → Dict → Bool) → Bytes → ℕ → List Node → List UdpAddr × Option LookupError
announce network takes key port seeds = elim (search_from network key seeds) [
  | err e ↦ ([], some e)
  | ok f ↦
      if f.answered == 0
      then ([], some no_nodes)
      else if accepted takes (announcements key port f.tokens f.near) == 0
      then (f.peers, some not_announced)
      else (f.peers, none)
]
