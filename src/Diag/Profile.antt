-- ===== src/Diag/Profile.antt =====
-- pkg/diag/profile.go. The check of a code, one byte of a SHA-256 in hex, is a parameter; the text
-- of a reason is left out.
pub mod Codes
pub mod Reach
mod Tests
use vapora.Base.{
  ℕ, ◌+◌, ◌-◌, ◌≤◌, Bool, true, false, not, ◌&&◌, ◌||◌, Option, none, some, List, [], ◌∷◌, ◌++◌,
  leb, ◌==◌, if◌then◌else◌, Bytes, bytes_eq, map,
}
use vapora.Base.Words.{trim_space}
use vapora.Stun.Behavior.{Mapping, mapping_unknown, endpoint_independent, address_dependent}
use vapora.Stun.Filtering.{
  Filtering, filtering_unknown, filters_nothing, filters_address, filters_address_and_port,
  accepts_unknown_peers,
}

pub record Profile : Type 0 where
  pub mapping : Mapping
  pub filtering : Filtering

-- The two maps of codes, with the word for what is not in them.
unfoldable pub mapping_code : Mapping → Bytes
mapping_code endpoint_independent = b'C' ∷ b'O' ∷ b'N' ∷ b'E' ∷ []
mapping_code address_dependent = b'S' ∷ b'Y' ∷ b'M' ∷ []
mapping_code mapping_unknown = b'U' ∷ b'N' ∷ b'K' ∷ b'N' ∷ b'O' ∷ b'W' ∷ b'N' ∷ []

unfoldable pub filtering_code : Filtering → Bytes
filtering_code filters_nothing = b'O' ∷ b'P' ∷ b'E' ∷ b'N' ∷ []
filtering_code filters_address = b'A' ∷ b'D' ∷ b'D' ∷ b'R' ∷ []
filtering_code filters_address_and_port = b'P' ∷ b'O' ∷ b'R' ∷ b'T' ∷ []
filtering_code filtering_unknown = b'U' ∷ b'N' ∷ b'K' ∷ b'N' ∷ b'O' ∷ b'W' ∷ b'N' ∷ []

-- The loops of `ParseProfile` over the maps, which hold no `unknown`.
unfoldable pub read_mapping : Bytes → Mapping
read_mapping name =
    if bytes_eq name (mapping_code endpoint_independent)
    then endpoint_independent
    else if bytes_eq name (mapping_code address_dependent)
    then address_dependent
    else mapping_unknown

unfoldable pub read_filtering : Bytes → Filtering
read_filtering name =
    if bytes_eq name (filtering_code filters_nothing)
    then filters_nothing
    else if bytes_eq name (filtering_code filters_address)
    then filters_address
    else if bytes_eq name (filtering_code filters_address_and_port)
    then filters_address_and_port
    else filtering_unknown

-- `strings.Split(s, "-")`, with the piece read so far.
unfoldable pub split_dash : Bytes → Bytes → List Bytes
split_dash piece [] = piece ∷ []
split_dash piece (c ∷ cs) =
    let next = split_dash [] cs in
    let longer = split_dash (piece ++ c ∷ []) cs in if c == b'-' then piece ∷ next else longer

-- `strings.ToUpper`, on ASCII.
abbrev pub to_upper : ℕ → ℕ
to_upper c = if leb b'a' c && leb c b'z' then c - 32 else c

module _ (check : Bytes → Bytes) where
  abbrev body : Bytes → Bytes → Bytes
  body mapping filtering = mapping ++ b'-' ∷ filtering

  unfoldable pub code : Profile → Bytes
  code p =
      let b = mapping_code p.mapping ++ b'-' ∷ filtering_code p.filtering in b ++ b'-' ∷ check b

  -- An error is always `ErrBadProfile`, here none.
  unfoldable pub of_parts : List Bytes → Option Profile
  of_parts (mapping ∷ filtering ∷ sum ∷ []) =
      if bytes_eq sum (check (mapping ++ b'-' ∷ filtering))
      then some (record { mapping = read_mapping mapping; filtering = read_filtering filtering })
      else none
  of_parts _ = none

  unfoldable pub parse_profile : Bytes → Option Profile
  parse_profile text = of_parts (split_dash [] (map to_upper (trim_space text)))

pub data Publisher : Type 0 where
  nobody you them either_side : Publisher

pub record Advice : Type 0 where
  pub works : Bool
  pub invites : ℕ
  pub publisher : Publisher

abbrev pub no_path : Advice
no_path = record { works = false; invites = 0; publisher = nobody }

abbrev pub is_symmetric : Profile → Bool
is_symmetric p = elim p.mapping [ address_dependent ↦ true | _ ↦ false ]

abbrev pub is_open : Profile → Bool
is_open p = elim p.filtering [ filters_nothing ↦ true | _ ↦ false ]

-- `Pair`, its five cases in order.
unfoldable pub pair : Profile → Profile → Advice
pair mine theirs =
    let (open_side, publisher) : Profile × Publisher =
      if is_symmetric theirs then (mine, you) else (theirs, them) in
    if is_symmetric mine && is_symmetric theirs
    then no_path
    else if is_symmetric mine || is_symmetric theirs
    then (if not (is_open open_side)
        then no_path
        else record { works = true; invites = 1; publisher = publisher })
    else if is_open mine && is_open theirs
    then record { works = true; invites = 1; publisher = either_side }
    else if is_open mine || is_open theirs
    then record { works = true; invites = 1; publisher = if not (is_open mine) then them else you }
    else record { works = true; invites = 2; publisher = either_side }
