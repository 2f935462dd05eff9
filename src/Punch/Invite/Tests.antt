-- ===== src/Punch/Invite/Tests.antt =====
-- A pasted line for pkg/punch/invite.go and roominvite.go.
use vapora.Base.{
  ◌≡◌, refl, Option, none, some, [], ◌∷◌, ◌++◌, replicate, Bytes, bytes_eq, if◌then◌else◌, ok,
  arith, drop, take,
}
use vapora.Base.Words.{
  fields_from, trim_space, trim_left, trim_right, cut, contains, concat, is_blank,
}
use vapora.Base.Decimal.{decimal, digits}
use vapora.Base.Base32.{base32}
use vapora.Punch.Roster.{is_zero}
use vapora.Punch.Invite.{
  Endpoint, endpoint_text, Invite, RoomInvite, room_token, parse_room_invite, begins_token,
}
use vapora.Punch.Invite.Pasted.{Holds, IsGood, parse_room_invite-room_token}

abbrev outside : Endpoint
outside = record { a = 203; b = 0; c = 113; d = 7; port = 51820 }

-- The resolver of a host that knows one address.
abbrev resolve : Bytes → Option Endpoint
resolve s = if bytes_eq s (endpoint_text outside) then some outside else none

resolve-outside : resolve (endpoint_text outside) ≡ some outside
unfolding endpoint_text decimal digits bytes_eq
resolve-outside = refl

abbrev invite : RoomInvite
invite = record { endpoint = outside; secret = replicate 16 7; host = replicate 32 9 }

invite-IsGood : IsGood invite
unfolding is_zero bytes_eq
invite-IsGood = record {
  port = refl;
  secret_size = refl;
  secret_byte = omega arith;
  host_size = refl;
  host_byte = omega arith;
  host_key = refl;
}

-- "./vapora join ", the first 30 bytes of the token, a line end, the rest.
abbrev broken : Bytes
broken =
    (b'.' ∷ b'/' ∷ b'v' ∷ b' ' ∷ b'j' ∷ b' ' ∷ [])
    ++ (take 30 (room_token invite) ++ 10 ∷ drop 30 (room_token invite))

broken-Holds : Holds broken (room_token invite)
unfolding room_token endpoint_text decimal digits base32 fields_from is_blank trim_space trim_left
    trim_right begins_token cut contains concat
broken-Holds = record {
  words = (b'.' ∷ b'/' ∷ b'v' ∷ []) ∷ (b'j' ∷ []) ∷ [];
  piece = take 30 (room_token invite);
  pieces = drop 30 (room_token invite) ∷ [];
  split = refl;
  plain = (refl, (refl, tt));
  reaches = refl;
  joined = refl;
}

parse_room_invite-room_token_example : parse_room_invite resolve broken ≡ ok invite
parse_room_invite-room_token_example =
    parse_room_invite-room_token resolve invite broken invite-IsGood resolve-outside broken-Holds

abbrev two : Invite
two = record { endpoint = outside; secret = replicate 16 3 }
