-- ===== src/Punch/Roster/Tests.antt =====
-- Runs of pkg/punch/roster.go, and its theorems at concrete rosters.
use vapora.Base.{◌≡◌, refl, none, some, List, [], ◌∷◌, arith, replicate, map, ok, err, All}
use vapora.Net.{v4, UdpAddr}
use vapora.Punch.Frame.{Rand}
use vapora.Punch.Roster.{
  Entry, is_zero, marshal, parse_entry, parse_entries, parse_counted, parse_roster,
  roster_too_large, malformed_roster,
}
use vapora.Punch.Roster.RoundTrip.{IsSendable, received, parse_roster-marshal}

abbrev public_addr : UdpAddr
public_addr = record { ip = v4 203 0 113 7; port = 51820 }

abbrev local_addr : UdpAddr
local_addr = record { ip = v4 192 168 1 20; port = 40000 }

abbrev two_members : List Entry
two_members =
    record { key = replicate 32 7; addr = some public_addr; local = some local_addr }
    ∷ record { key = replicate 32 9; addr = some local_addr; local = none }
    ∷ []

abbrev some_filler : Rand
some_filler = record { two = some (0 ∷ 3 ∷ []); fill = λ n. some (replicate n 170) }

two_members-IsSendable : All IsSendable two_members
unfolding is_zero
two_members-IsSendable = (
  record {
    key_length = refl;
    key_nonzero = refl;
    addr_port = omega arith;
    local_port = omega arith;
    addr_carried = refl;
    addr_there = λ e. cc;
  },
  (
    record {
      key_length = refl;
      key_nonzero = refl;
      addr_port = omega arith;
      local_port = tt;
      addr_carried = refl;
      addr_there = λ e. cc;
    },
    tt,
  ),
)

parse_roster-marshal_example :
    parse_roster (marshal some_filler two_members) 8 ≡ ok (map received two_members)
parse_roster-marshal_example =
    parse_roster-marshal some_filler two_members 8 two_members-IsSendable (omega arith)
      (omega arith)

over_capacity : parse_roster (9 ∷ []) 8 ≡ err roster_too_large
unfolding parse_roster parse_counted
over_capacity = refl

cut_short : parse_roster (1 ∷ replicate 43 5) 8 ≡ err malformed_roster
unfolding parse_roster parse_counted
cut_short = refl

no_key : parse_roster (1 ∷ replicate 44 0) 8 ≡ err malformed_roster
unfolding parse_roster parse_counted parse_entries parse_entry is_zero
no_key = refl
