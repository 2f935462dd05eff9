-- ===== src/Punch/Invite.antt =====
-- pkg/punch/secret.go, invite.go and roominvite.go: the lines that people hand to each other. What a
-- host and a port resolve to (net.ResolveUDPAddr, which may ask a name server) is a parameter; the
-- text of an endpoint is that of an IPv4 address, which "udp4" gives.
pub mod Tokens
pub mod Pasted
mod Tests
use vapora.Base.{
  ℕ, ◌+◌, Bool, true, false, not, ◌&&◌, Option, none, some, List, [], ◌∷◌, ◌++◌, ◌==◌,
  if◌then◌else◌, length, take, drop, Bytes, bytes_eq, Result, ok, err,
}
use vapora.Base.Wire.{byte_at}
use vapora.Base.Words.{trim_space, fields, cut, contains, concat}
use vapora.Base.Decimal.{decimal}
use vapora.Base.Base32.{base32}
use vapora.Base.Base32.Decode.{decode_base32}
use vapora.Punch.Roster.{public_key_size, is_zero}

abbrev pub secret_bytes : ℕ
secret_bytes = 16

abbrev pub invite_version : ℕ
invite_version = 1

pub record Endpoint : Type 0 where
  pub a : ℕ
  pub b : ℕ
  pub c : ℕ
  pub d : ℕ
  pub port : ℕ

-- `UDPAddr.String`
unfoldable pub endpoint_text : Endpoint → Bytes
endpoint_text e =
    decimal e.a
    ++ (b'.'
        ∷ (decimal e.b
            ++ (b'.' ∷ (decimal e.c ++ (b'.' ∷ (decimal e.d ++ (b':' ∷ decimal e.port)))))))

-- An empty secret is none.
pub record Invite : Type 0 where
  pub endpoint : Endpoint
  pub secret : Bytes

pub record RoomInvite : Type 0 where
  pub endpoint : Endpoint
  pub secret : Bytes
  pub host : Bytes

pub data InviteError : Type 0 where
  no_endpoint bad_endpoint no_port bad_secret : InviteError
  secret_length : ℕ → InviteError
  -- `ErrNotRoomInvite`, by its reason
  empty_line no_room bad_room_endpoint bad_blob punch_invite no_host_key : InviteError
  blob_length : ℕ → InviteError
  -- `ErrInviteVersion`
  other_version : ℕ → InviteError

unfoldable pub token : Invite → Bytes
token i = elim i.secret [
  | [] ↦ endpoint_text i.endpoint
  | ◌∷◌ s ss ↦ endpoint_text i.endpoint ++ b'/' ∷ base32 (s ∷ ss)
]

abbrev pub room_blob : RoomInvite → Bytes
room_blob i = invite_version ∷ (i.secret ++ i.host)

unfoldable pub room_token : RoomInvite → Bytes
room_token i = endpoint_text i.endpoint ++ b'/' ∷ base32 (room_blob i)

-- `Command` of either kind.
abbrev pub command_line : Bytes → Bytes → Bytes
command_line command t = command ++ b' ' ∷ t

-- Whether a field begins a token: a separator, with a colon before it.
unfoldable pub begins_token : Bytes → Bool
begins_token field = let (endpoint, rest, found) = cut b'/' field in found && contains b':' endpoint

-- The loop of `joinToken`, with the last field so far.
unfoldable pub join_from : Bytes → List Bytes → Bytes
join_from last [] = last
join_from last (f ∷ fs) =
    let later = join_from f fs in if begins_token f then concat (f ∷ fs) else later

unfoldable pub join_token : List Bytes → Bytes
join_token fs = join_from [] fs

unfoldable pub parse_secret : Bytes → Result InviteError Bytes
parse_secret encoded = elim (decode_base32 encoded) [
  | none ↦ err bad_secret
  | some secret ↦
      if length secret == secret_bytes then ok secret else err (secret_length (length secret))
]

abbrev pub is_blank_line : List Bytes → Bool
is_blank_line [] = true
is_blank_line (f ∷ fs) = false

-- The part of `ParseRoomInvite` behind the decoding.
unfoldable pub open_blob : Endpoint → Bytes → Result InviteError RoomInvite
open_blob endpoint blob =
    let host = drop (1 + secret_bytes) blob in
    let invite : RoomInvite = record {
      endpoint = endpoint;
      secret = take secret_bytes (drop 1 blob);
      host = host;
    } in
    if length blob == secret_bytes
    then err punch_invite
    else if not (length blob == 1 + secret_bytes + public_key_size)
    then err (blob_length (length blob))
    else if not (byte_at blob 0 == invite_version)
    then err (other_version (byte_at blob 0))
    else if is_zero host
    then err no_host_key
    else ok invite

module _ (resolve : Bytes → Option Endpoint) where
  -- What follows the endpoint in `ParseInvite`.
  unfoldable pub finish_invite : Endpoint → Bytes → Bool → Result InviteError Invite
  finish_invite endpoint encoded false = ok (record { endpoint = endpoint; secret = [] })
  finish_invite endpoint encoded true = elim (parse_secret encoded) [
    | err e ↦ err e
    | ok secret ↦ ok (record { endpoint = endpoint; secret = secret })
  ]

  unfoldable pub invite_of : Bytes × Bytes × Bool → Result InviteError Invite
  invite_of (endpoint_part, secret_part, has_secret) = elim (resolve endpoint_part) [
    | none ↦ err bad_endpoint
    | some endpoint ↦
        if endpoint.port == 0 then err no_port else finish_invite endpoint secret_part has_secret
  ]

  unfoldable pub parse_invite : Bytes → Result InviteError Invite
  parse_invite line =
      let fs = fields (trim_space line) in
      if is_blank_line fs then err no_endpoint else invite_of (cut b'/' (join_token fs))

  unfoldable pub room_invite_of : Bytes × Bytes × Bool → Result InviteError RoomInvite
  room_invite_of (endpoint_part, blob_part, false) = err no_room
  room_invite_of (endpoint_part, blob_part, true) = elim (resolve endpoint_part) [
    | none ↦ err bad_room_endpoint
    | some endpoint ↦
        if endpoint.port == 0 then err bad_room_endpoint else elim (decode_base32 blob_part) [
          | none ↦ err bad_blob
          | some blob ↦ open_blob endpoint blob
        ]
  ]

  unfoldable pub parse_room_invite : Bytes → Result InviteError RoomInvite
  parse_room_invite line =
      let fs = fields (trim_space line) in
      if is_blank_line fs then err empty_line else room_invite_of (cut b'/' (join_token fs))
