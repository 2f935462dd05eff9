-- ===== src/Diag/Mesh/Tests.antt =====
-- A room of three for pkg/diag/mesh.go: two with a new port for every destination, one in the open.
use vapora.Base.{arith, bytes_less, ◌≡◌, ◌↔◌, refl, true, List, [], ◌∷◌, bytes_eq}
use vapora.Stun.Behavior.{endpoint_independent, address_dependent}
use vapora.Stun.Filtering.{filters_address_and_port, filters_nothing}
use vapora.Diag.Profile.{pair}
use vapora.Diag.Mesh.{
  Member, mesh_of, hosts_of, best_of, with_count, sort_in, sort_names, tally_all, tally_row,
  tally_pair,
}
use vapora.Diag.Mesh.Alone.{has_name, Silent, isolated-Silent}
use vapora.Diag.Mesh.Closes.{EveryPair, broken_pairs, mesh_of-EveryPair}

abbrev otter : Member
otter = record {
  name = b'O' ∷ [];
  profile = record { mapping = address_dependent; filtering = filters_address_and_port };
}

abbrev lynx : Member
lynx = record {
  name = b'L' ∷ [];
  profile = record { mapping = address_dependent; filtering = filters_nothing };
}

abbrev heron : Member
heron = record {
  name = b'H' ∷ [];
  profile = record { mapping = endpoint_independent; filtering = filters_nothing };
}

abbrev room : List Member
room = otter ∷ lynx ∷ heron ∷ []

mesh_of-EveryPair_example :
    (((mesh_of room).closes ≡ true) ↔ EveryPair room) × ((mesh_of room).broken ≡ broken_pairs room)
mesh_of-EveryPair_example = mesh_of-EveryPair room

-- The first two cannot connect, and the third is left out.
abbrev apart : List Member
apart = lynx ∷ otter ∷ []

apart_run : has_name otter.name (mesh_of apart).isolated ≡ true
unfolding mesh_of with_count sort_in sort_names tally_all tally_row tally_pair pair bytes_eq
    has_name bytes_less
apart_run = refl

isolated-Silent_example :
    (has_name otter.name (mesh_of (lynx ∷ otter ∷ heron ∷ [])).isolated ≡ true)
    ↔ (Silent otter (lynx ∷ []) × Silent otter (heron ∷ []))
unfolding bytes_eq
isolated-Silent_example =
    isolated-Silent otter (lynx ∷ []) (heron ∷ []) (refl, tt) (refl, tt) (omega arith)

hosts_run : (mesh_of room).hosts ≡ (b'H' ∷ []) ∷ []
unfolding mesh_of hosts_of best_of with_count sort_in sort_names tally_all tally_row tally_pair pair
    bytes_eq
hosts_run = refl
