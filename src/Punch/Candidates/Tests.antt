-- ===== src/Punch/Candidates/Tests.antt =====
-- Concrete candidate sets of pkg/punch/candidates.go.
use vapora.Base.{ℕ, ◌≡◌, refl, some, [], ◌∷◌}
use vapora.Net.{v4, UdpAddr, addr_eq, ip_eq}
use vapora.Punch.Candidates.{Candidates, local_of, all_candidates}

abbrev host : ℕ → UdpAddr
host n = record { ip = v4 10 0 0 n; port = 9 }

abbrev three : Candidates
three = record { addrs = host 1 ∷ host 2 ∷ host 3 ∷ []; current = 2 }

-- The address kept beside the one in use, and the whole set.
local_run : local_of three (host 1) ≡ some (host 2)
unfolding local_of addr_eq ip_eq
local_run = refl

all_run : all_candidates three ≡ host 1 ∷ host 2 ∷ host 3 ∷ []
unfolding all_candidates
all_run = refl
