-- ===== src/Diag/Mesh.antt =====
-- pkg/diag/mesh.go: whether a room closes. The texts of reasons are left out; a map from names to
-- counts gives 0 for a name that is not in it.
pub mod Closes
pub mod Alone
mod Tests
use vapora.Base.{
  ℕ, ◌+◌, Bool, true, false, not, ◌&&◌, ◌||◌, Option, none, some, List, [], ◌∷◌, ◌++◌, ltb, ◌==◌,
  if◌then◌else◌, length, Bytes, bytes_eq, bytes_less, ◌≡◌, refl, arith,
}
use vapora.Base.Dict.{lookup, insert}
use vapora.Diag.Profile.{Profile, Publisher, nobody, you, them, either_side, pair}

pub record Member : Type 0 where
  pub name : Bytes
  pub profile : Profile

pub record Unreachable : Type 0 where
  pub a : Bytes
  pub b : Bytes

abbrev pub Counts : Type 0
Counts = List (Bytes × ℕ)

abbrev pub or_zero : Option ℕ → ℕ
or_zero none = 0
or_zero (some n) = n

abbrev pub count_of : Bytes → Counts → ℕ
count_of name counts = or_zero (lookup bytes_eq name counts)

-- `counts[name]++`
abbrev pub bump : Bytes → Counts → Counts
bump name counts = insert bytes_eq name (count_of name counts + 1) counts

-- What the double loop of `MeshOf` fills in.
pub record Tally : Type 0 where
  pub hostable : Counts
  pub reached : Counts
  pub broken : List Unreachable
  pub exchanges : List Unreachable

abbrev pub is_you : Publisher → Bool
is_you you = true
is_you _ = false

abbrev pub is_them : Publisher → Bool
is_them them = true
is_them _ = false

abbrev pub is_either : Publisher → Bool
is_either either_side = true
is_either _ = false

-- The body of the double loop.
unfoldable pub tally_pair : Tally → Member → Member → Tally
tally_pair t a b =
    let advice = pair a.profile b.profile in
    let names : Unreachable = record { a = a.name; b = b.name } in
    let hostable_a =
      if is_you advice.publisher || is_either advice.publisher
      then bump a.name t.hostable
      else t.hostable in
    if not advice.works then record t { broken = t.broken ++ names ∷ [] } else record t {
      exchanges = if ltb 1 advice.invites then t.exchanges ++ names ∷ [] else t.exchanges;
      hostable =
          if is_them advice.publisher || is_either advice.publisher
          then bump b.name hostable_a
          else hostable_a;
      reached = bump b.name (bump a.name t.reached);
    }

unfoldable pub tally_row : Member → List Member → Tally → Tally
tally_row a [] t = t
tally_row a (b ∷ bs) t = tally_row a bs (tally_pair t a b)

unfoldable pub tally_all : List Member → Tally → Tally
tally_all [] t = t
tally_all (m ∷ ms) t = tally_all ms (tally_row m ms t)

abbrev pub nothing_tallied : Tally
nothing_tallied = record { hostable = []; reached = []; broken = []; exchanges = [] }

-- `sort.Strings`
unfoldable pub sort_in : Bytes → List Bytes → List Bytes
sort_in name [] = name ∷ []
sort_in name (n ∷ ns) =
    let later = sort_in name ns in if bytes_less n name then n ∷ later else name ∷ n ∷ ns

unfoldable pub sort_names : List Bytes → List Bytes
sort_names [] = []
sort_names (n ∷ ns) = sort_in n (sort_names ns)

-- The members with that count, by name.
unfoldable pub with_count : ℕ → Counts → List Member → List Bytes
with_count n counts [] = []
with_count n counts (m ∷ ms) =
    let rest = with_count n counts ms in if count_of m.name counts == n then m.name ∷ rest else rest

-- The first loop of `hostsOf`.
unfoldable pub best_of : Counts → ℕ → List Member → ℕ
best_of counts best [] = best
best_of counts best (m ∷ ms) =
    best_of counts (if ltb best (count_of m.name counts) then count_of m.name counts else best) ms

unfoldable pub hosts_of : List Member → Counts → List Bytes
hosts_of members hostable = sort_names (with_count (best_of hostable 0 members) hostable members)

pub record MeshAdvice : Type 0 where
  pub closes : Bool
  pub broken : List Unreachable
  pub isolated : List Bytes
  pub hosts : List Bytes
  pub exchanges : List Unreachable

abbrev pub is_empty {ℓ} : {A : Type ℓ} → List A → Bool
is_empty [] = true
is_empty (x ∷ xs) = false

abbrev pub advice_of : List Member → Tally → MeshAdvice
advice_of members t = record {
  closes = is_empty t.broken;
  broken = t.broken;
  isolated = sort_names (with_count 0 t.reached members);
  hosts = hosts_of members t.hostable;
  exchanges = t.exchanges;
}

abbrev too_few : MeshAdvice
too_few = record { closes = true; broken = []; isolated = []; hosts = []; exchanges = [] }

unfoldable pub mesh_of : List Member → MeshAdvice
mesh_of members =
    if ltb (length members) 2
    then too_few
    else advice_of members (tally_all members nothing_tallied)

pub mesh_of-many :
    (m n : Member) (ms : List Member)
    → mesh_of (m ∷ n ∷ ms) ≡ advice_of (m ∷ n ∷ ms) (tally_all (m ∷ n ∷ ms) nothing_tallied)
unfolding mesh_of
mesh_of-many m n ms = let many : ltb (length (m ∷ n ∷ ms)) 2 ≡ false = ground arith in rw many refl
