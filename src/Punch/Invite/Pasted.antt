-- ===== src/Punch/Invite/Pasted.antt =====
-- pkg/punch/invite.go and roominvite.go: an invite that was pasted is read as the one written.
use vapora.Base.{
  ◌≡◌, refl, true, false, Option, some, List, [], ◌∷◌, ◌++◌, ◌==◌, length, Bytes, All, All-append,
  ok, err, arith, length-append, take-append, drop-append,
}
use vapora.Base.Wire.{IsByte}
use vapora.Base.Words.{trim_space, fields, cut, contains, concat}
use vapora.Base.Base32.{base32}
use vapora.Base.Base32.Decode.{decode_base32-base32}
use vapora.Punch.Roster.{is_zero, public_key_size}
use vapora.Punch.Invite.{
  secret_bytes, Endpoint, endpoint_text, Invite, RoomInvite, token, room_blob, room_token,
  join_token, is_blank_line, open_blob, parse_secret, finish_invite, invite_of, parse_invite,
  room_invite_of, parse_room_invite, punch_invite,
}
use vapora.Punch.Invite.Tokens.{IsPlain, cut-append, endpoint_text-Lacks, join_token_words}

-- What the line holds: words with no ':' before their first '/' (`IsPlain`), then the text, in one
-- piece or broken by white space, if its first piece reaches to its '/'. A text that is broken
-- before its '/' is not held.
pub record Holds (line text : Bytes) : Type 0 where
  pub words : List Bytes
  pub piece : Bytes
  pub pieces : List Bytes
  pub split : fields (trim_space line) ≡ words ++ piece ∷ pieces
  pub plain : All IsPlain words
  pub reaches : contains b'/' piece ≡ true
  pub joined : concat (piece ∷ pieces) ≡ text

not_blank : (words ps : List Bytes) (p : Bytes) → is_blank_line (words ++ p ∷ ps) ≡ false
not_blank [] ps p = refl
not_blank (w ∷ ws) ps p = refl

-- What any line that holds a token is cut into.
cut_token :
    (line : Bytes) (e : Endpoint) (after : Bytes)
    → Holds line (endpoint_text e ++ b'/' ∷ after)
    → (is_blank_line (fields (trim_space line)) ≡ false)
      × (cut b'/' (join_token (fields (trim_space line))) ≡ (endpoint_text e, after, true))
cut_token line e after h = (
  rw h.split (not_blank h.words h.pieces h.piece),
  rw (h.split) (
      rw (join_token_words h.words h.pieces h.piece after e h.plain h.reaches h.joined)
        (cut-append b'/' (endpoint_text e) after (endpoint_text-Lacks e))),
)

pub record IsGood (i : RoomInvite) : Type 0 where
  pub port : (i.endpoint.port == 0) ≡ false
  pub secret_size : length i.secret ≡ secret_bytes
  pub secret_byte : All IsByte i.secret
  pub host_size : length i.host ≡ public_key_size
  pub host_byte : All IsByte i.host
  pub host_key : is_zero i.host ≡ false

open_blob_lem : (i : RoomInvite) → IsGood i → open_blob i.endpoint (room_blob i) ≡ ok i
unfolding open_blob
open_blob_lem i g =
    let secret = take-append i.secret i.host 16 g.secret_size in
    let host = drop-append i.secret i.host 16 g.secret_size in
    let size : length (room_blob i) ≡ 49 =
      omega (arith, length-append i.secret i.host, g.secret_size, g.host_size) in
    rw secret (rw host (rw g.host_key (ground (arith, size))))

token-secret :
    (e : Endpoint) (secret : Bytes)
    → length secret ≡ secret_bytes
    → token (record { endpoint = e; secret = secret }) ≡ endpoint_text e ++ b'/' ∷ base32 secret
unfolding token
token-secret e [] h = absurd (omega arith)
token-secret e (s ∷ ss) h = refl

parse_secret_lem :
    (secret : Bytes)
    → length secret ≡ secret_bytes
    → All IsByte secret
    → parse_secret (base32 secret) ≡ ok secret
unfolding parse_secret
parse_secret_lem secret size bytes =
    rw (decode_base32-base32 secret bytes, parse_secret) (ground (arith, size))

open_blob-punch_invite :
    (e : Endpoint) (secret : Bytes)
    → length secret ≡ secret_bytes
    → open_blob e secret ≡ err punch_invite
unfolding open_blob
open_blob-punch_invite e secret size = ground (arith, size)

module _ (resolve : Bytes → Option Endpoint) where
  -- A room invite whose endpoint's text resolves to that endpoint is read as it was written from any
  -- line that ends in its token: bare, or behind words with no ':' before their first '/', and
  -- whole or broken by white space anywhere behind its '/'. Of a token broken inside its endpoint,
  -- and of one behind a word such as a URL, this says nothing.
  pub parse_room_invite-room_token :
      (i : RoomInvite) (line : Bytes)
      → IsGood i
      → resolve (endpoint_text i.endpoint) ≡ some i.endpoint
      → Holds line (room_token i)
      → parse_room_invite resolve line ≡ ok i
  unfolding parse_room_invite room_token room_invite_of
  parse_room_invite-room_token i line g r h =
      let (blank, parts) = cut_token line i.endpoint (base32 (room_blob i)) h in
      let decoded =
        decode_base32-base32 (room_blob i)
          (omega arith, All-append IsByte i.secret i.host g.secret_byte g.host_byte) in
      rw blank (
        rw parts
          (rw (r, room_invite_of) (rw g.port (rw (decoded, room_invite_of) (open_blob_lem i g)))))

  -- The same lines with an invite to a conversation of two: it is read as it was written, and where a
  -- room's is expected it is refused for what it is.
  pub parse_room_invite-token :
      (i : Invite) (line : Bytes)
      → (i.endpoint.port == 0) ≡ false
      → length i.secret ≡ secret_bytes
      → All IsByte i.secret
      → resolve (endpoint_text i.endpoint) ≡ some i.endpoint
      → Holds line (token i)
      → (parse_invite resolve line ≡ ok i) × (parse_room_invite resolve line ≡ err punch_invite)
  unfolding parse_invite parse_room_invite room_invite_of invite_of finish_invite
  parse_room_invite-token i line p size bytes r h =
      let (blank, parts) =
        cut_token line i.endpoint (base32 i.secret)
          (rw (token-secret i.endpoint i.secret size) at h) in
      (
        rw blank (
            rw parts (
              rw (r, invite_of)
                (rw p (rw (parse_secret_lem i.secret size bytes, finish_invite) refl)))),
        rw blank (
            rw parts (
              rw (r, room_invite_of)
                (rw p (
                  rw (decode_base32-base32 i.secret bytes, room_invite_of)
                    (open_blob-punch_invite i.endpoint i.secret size))))),
      )
