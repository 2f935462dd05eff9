-- ===== src/Punch/Candidates.antt =====
-- pkg/punch/candidates.go: the addresses a member might answer on. A pointer to an address is the
-- address, and nil is `none`.
pub mod Rotation
mod Tests
use vapora.Base.{
  ℕ, ◌+◌, ◌%◌, Bool, true, false, not, Option, none, some, List, [], ◌∷◌, ◌++◌, ltb, leb,
  if◌then◌else◌, length, get_elem?,
}
use vapora.Net.{UdpAddr, addr_eq, contains_addr}

abbrev pub max_candidates : ℕ
max_candidates = 4

pub record Candidates : Type 0 where
  pub addrs : List UdpAddr
  pub current : ℕ

consider_addr : Candidates → UdpAddr → Candidates × Bool
consider_addr c addr =
    if contains_addr c.addrs addr
    then (c, false)
    else if leb max_candidates (length c.addrs)
    then (c, false)
    else (record c { addrs = c.addrs ++ addr ∷ [] }, true)

pub consider : Candidates → Option UdpAddr → Candidates × Bool
unfolding consider_addr
consider c none = (c, false)
consider c (some addr) = consider_addr c addr

pub new_candidates : Option UdpAddr → Candidates
unfolding consider
new_candidates first = (consider (record { addrs = []; current = 0 }) first).0

-- `none` beside an unchanged value when rotating would achieve nothing.
pub next : Candidates → Candidates × Option UdpAddr
next c =
    let i = (c.current + 1) % length c.addrs in
    if ltb (length c.addrs) 2 then (c, none) else (record c { current = i }, get_elem? c.addrs i)

pub at : Candidates → Option UdpAddr
at c = get_elem? c.addrs c.current

abbrev first_other : List UdpAddr → UdpAddr → Option UdpAddr
first_other [] in_use = none
first_other (addr ∷ rest) in_use =
    if not (addr_eq addr in_use) then some addr else first_other rest in_use

pub local_of : Candidates → UdpAddr → Option UdpAddr
local_of c in_use = first_other c.addrs in_use

pub all_candidates : Candidates → List UdpAddr
all_candidates c = c.addrs
