-- ===== src/Diag/Profile/Reach.antt =====
-- pkg/diag/profile.go: what `Pair` says, against what two NATs do with the packets.
use vapora.Base.{◌≡◌, ◌≢◌, Bool, true, false, not, ◌&&◌, ◌||◌, arith, ◌==◌}
use vapora.Stun.Behavior.{Mapping, mapping_unknown}
use vapora.Stun.Filtering.{Filtering, filtering_unknown, filters_address, lets_in}
use vapora.Diag.Profile.{
  Profile, Advice, Publisher, nobody, you, them, either_side, pair, is_symmetric,
}

-- One side waits at an address it gave away, the other sends there. The packet needs an address
-- that is the same for everybody, and a filter that lets in what nobody was written to before. What
-- is sent back to where it came from gets through any filter.
abbrev pub one_invite : Profile → Profile → Bool
one_invite waiting joining = not (is_symmetric waiting) && lets_in waiting.filtering false false

-- Both write to the address that the other gave away, so the other's host is known to each filter,
-- and the port it comes from too unless that side has a new one for every destination.
abbrev pub gets_in : Profile → Profile → Bool
gets_in from to = not (is_symmetric to) && lets_in to.filtering true (not (is_symmetric from))

abbrev pub two_invites : Profile → Profile → Bool
two_invites a b = gets_in a b || gets_in b a

-- One side has a new port for every destination, and the other filters by host alone.
abbrev pub filters_host : Profile → Bool
filters_host p = elim p.filtering [ filters_address ↦ true | _ ↦ false ]

abbrev pub overlooked : Profile → Profile → Bool
overlooked a b =
    (is_symmetric a && not (is_symmetric b) && filters_host b)
    || (is_symmetric b && not (is_symmetric a) && filters_host a)

-- What the advice says that a side can do by waiting.
abbrev pub may_wait : Publisher → Publisher → Bool
may_wait who either_side = true
may_wait you you = true
may_wait them them = true
may_wait _ _ = false

abbrev pub Measured : Profile → Type 0
Measured p = (p.mapping ≢ mapping_unknown) × (p.filtering ≢ filtering_unknown)

abbrev pub Agrees : Profile → Profile → Advice → Type 0
Agrees mine theirs advice =
    (one_invite mine theirs
      ≡ (advice.works && advice.invites == 1 && may_wait you advice.publisher))
    × (one_invite theirs mine
        ≡ (advice.works && advice.invites == 1 && may_wait them advice.publisher))
    × (two_invites mine theirs ≡ (advice.works || overlooked mine theirs))

pair-Agrees_of :
    (m n : Mapping) (f g : Filtering)
    → m ≢ mapping_unknown
    → n ≢ mapping_unknown
    → f ≢ filtering_unknown
    → g ≢ filtering_unknown
    → Agrees
        (record { mapping = m; filtering = f })
        (record { mapping = n; filtering = g })
        (pair (record { mapping = m; filtering = f }) (record { mapping = n; filtering = g }))
unfolding pair
pair-Agrees_of m n f g hm hn hf hg = ground arith

-- Between two measured sides the advice is what two NATs do: a side is told to wait with one invite exactly if the other's first packet reaches it there, and the pair is said to work exactly if packets get through once both have invites, with one exception: where one side has a new port for every destination and the other filters by host alone, an exchange of invites gets through, and the advice says that nothing but a relay does.
pub pair-Agrees :
    (mine theirs : Profile)
    → Measured mine
    → Measured theirs
    → Agrees mine theirs (pair mine theirs)
pair-Agrees mine theirs hm ht =
    pair-Agrees_of mine.mapping theirs.mapping mine.filtering theirs.filtering hm.0 ht.0 hm.1 ht.1

-- The same side, as the other one calls it.
abbrev pub mirror : Publisher → Publisher
mirror nobody = nobody
mirror you = them
mirror them = you
mirror either_side = either_side

abbrev pub mirrored : Advice → Advice
mirrored a = record a { publisher = mirror a.publisher }

pair-mirrored_of :
    (m n : Mapping) (f g : Filtering)
    → pair (record { mapping = n; filtering = g }) (record { mapping = m; filtering = f })
      ≡ mirrored
          (pair (record { mapping = m; filtering = f }) (record { mapping = n; filtering = g }))
unfolding pair
pair-mirrored_of m n f g = ground arith

pub pair-mirrored : (mine theirs : Profile) → pair theirs mine ≡ mirrored (pair mine theirs)
pair-mirrored mine theirs =
    pair-mirrored_of mine.mapping theirs.mapping mine.filtering theirs.filtering
