-- ===== src/Punch/Codec.antt =====
-- pkg/punch/crypto.go: frames sealed under one key a direction, and opened at most once.
pub mod Channel
pub mod Authentic
pub mod Tests
use vapora.Base.{
  ℕ, ◌+◌, ◌%◌, ◌^◌, ◌≡◌, Bool, true, false, Option, none, some, List, [], ◌∷◌, ◌++◌, ltb,
  if◌then◌else◌, length, take, drop, Bytes, bytes_eq, Result, ok, err,
}
use vapora.Base.Wire.{put_u64, u64_at}
use vapora.Base.Dict.{lookup, insert}
use vapora.Punch.Frame.{encode, decode}
use vapora.Punch.Replay.{ReplayWindow, accept, empty_window}

abbrev pub prefix_bytes : ℕ
prefix_bytes = 4

abbrev pub nonce_bytes : ℕ
nonce_bytes = 12

abbrev pub role_inviter : Bytes
role_inviter = b'i' ∷ b'n' ∷ b'v' ∷ b'i' ∷ b't' ∷ b'e' ∷ b'r' ∷ []

abbrev pub role_joiner : Bytes
role_joiner = b'j' ∷ b'o' ∷ b'i' ∷ b'n' ∷ b'e' ∷ b'r' ∷ []

-- `Role.other`.
pub other_role : Bytes → Bytes
other_role r = if bytes_eq r role_inviter then role_joiner else role_inviter

-- `keyInfo`, "vapora punch v1 ".
abbrev pub key_info : Bytes
key_info =
    b'v' ∷ b'a' ∷ b'p' ∷ b'o' ∷ b'r' ∷ b'a' ∷ b' ' ∷ b'p' ∷ b'u' ∷ b'n' ∷ b'c' ∷ b'h' ∷ b' ' ∷ b'v'
    ∷ b'1' ∷ b' ' ∷ []

-- The cryptography that the code calls: AES-256-GCM under a key and a nonce with no extra data, and
-- HKDF-SHA256 of material, salt and info. A sealed text opens to what was sealed and is longer by
-- the tag.
pub record Crypto : Type 0 where
  pub aead_seal : Bytes → Bytes → Bytes → Bytes
  pub aead_open : Bytes → Bytes → Bytes → Option Bytes
  pub overhead : ℕ
  pub derive_key : Bytes → Bytes → Bytes → Bytes
  pub open-seal :
      (key nonce plain : Bytes) → aead_open key nonce (aead_seal key nonce plain) ≡ some plain
  pub length-seal :
      (key nonce plain : Bytes) → length (aead_seal key nonce plain) ≡ length plain + overhead

pub data CodecError : Type 0 where
  unauthenticated replayed empty_frame : CodecError

pub record Opened : Type 0 where
  pub kind : ℕ
  pub payload : Bytes
  pub sender : Bytes

-- The two AEADs are their keys; `seen` is the map from nonce prefixes to windows.
pub record SecretCodec : Type 0 where
  pub seal_key : Bytes
  pub open_key : Bytes
  pub prefix : Bytes
  pub counter : ℕ
  pub seen : List (Bytes × ReplayWindow)

-- `newCodec`, with the prefix that was drawn.
unfoldable pub new_codec : Bytes → Bytes → Bytes → SecretCodec
new_codec seal_key open_key prefix = record {
  seal_key = seal_key;
  open_key = open_key;
  prefix = prefix;
  counter = 0;
  seen = [];
}

pub nonce_for : Bytes → ℕ → Bytes
nonce_for prefix counter = prefix ++ put_u64 counter

unfoldable pub window_of : SecretCodec → Bytes → ReplayWindow
window_of c prefix = elim (lookup bytes_eq prefix c.seen) [ none ↦ empty_window | some w ↦ w ]

-- `SecretCodec.accept`: the window of that prefix, made if it is new, decides and is updated.
pub accept_nonce : SecretCodec → Bytes → ℕ → SecretCodec × Bool
accept_nonce c prefix counter =
    let (w, fresh) = accept (window_of c prefix) counter in
    (record c { seen = insert bytes_eq prefix w c.seen }, fresh)

module _ (crypto : Crypto) where
  open crypto use {aead_seal, aead_open, overhead, derive_key}

  pub new_secret_codec : Bytes → Bytes → Bytes → SecretCodec
  new_secret_codec secret role prefix =
      new_codec (derive_key secret [] (key_info ++ role))
        (derive_key secret [] (key_info ++ other_role role)) prefix

  pub seal : SecretCodec → ℕ → Bytes → SecretCodec × Bytes
  seal c kind payload =
      let counter = (c.counter + 1) % 2 ^ 64 in
      let nonce = nonce_for c.prefix counter in
      (record c { counter = counter }, nonce ++ aead_seal c.seal_key nonce (encode kind payload))

  opened : SecretCodec → Bytes → Bytes → SecretCodec × Result CodecError Opened
  opened c nonce plain =
      let prefix = take prefix_bytes nonce in
      let (c', fresh) = accept_nonce c prefix (u64_at nonce prefix_bytes) in
      if fresh
      then (
        c',
        elim (decode plain) [
          | none ↦ err empty_frame
          | some (kind, payload) ↦ ok (record { kind = kind; payload = payload; sender = prefix })
        ],
      )
      else (c', err replayed)

  pub open_wire : SecretCodec → Bytes → SecretCodec × Result CodecError Opened
  open_wire c wire =
      if ltb (length wire) (nonce_bytes + overhead)
      then (c, err unauthenticated)
      else elim (aead_open c.open_key (take nonce_bytes wire) (drop nonce_bytes wire)) [
        | none ↦ (c, err unauthenticated)
        | some plain ↦ opened c (take nonce_bytes wire) plain
      ]

-- `plainCodec`, which only tests use.
pub plain_seal : ℕ → Bytes → Bytes
plain_seal = encode

pub plain_open : Bytes → Result CodecError Opened
plain_open wire = elim (decode wire) [
  | none ↦ err empty_frame
  | some (kind, payload) ↦
      ok (record { kind = kind; payload = payload; sender = 0 ∷ 0 ∷ 0 ∷ 0 ∷ [] })
]
