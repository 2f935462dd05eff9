-- ===== src/Punch/Codec/Tests.antt =====
-- A concrete AEAD that meets the laws, and pkg/punch/crypto.go run over it.
use vapora.Base.{
  ℕ, ◌+◌, ◌≡◌, refl, Option, none, some, List, [], ◌∷◌, ◌++◌, if◌then◌else◌, length, take, drop,
  take-append, drop-append, length-append, length-take, replicate, Bytes, bytes_eq, bytes_eq_iff,
  ok, err, arith,
}
use vapora.Punch.Frame.{encode, decode}
use vapora.Punch.Replay.{accept}
use vapora.Punch.Codec.{
  Crypto, SecretCodec, unauthenticated, replayed, Opened, new_codec, new_secret_codec, role_inviter,
  role_joiner, other_role, nonce_for, window_of, accept_nonce, seal, opened, open_wire,
}
use vapora.Punch.Codec.Channel.{Expects, seal_all, open_all, frames, open_all-seal_all}
use vapora.Punch.Codec.Authentic.{Traffic, arrives, sends, passes, open_wire_again}

-- A tag of sixteen bytes of the key in front of the text.
abbrev pub tag : Bytes → Bytes
tag key = take 16 (key ++ replicate 16 0)

abbrev pub tagged_open : Bytes → Bytes → Bytes → Option Bytes
tagged_open key nonce text = if bytes_eq (take 16 text) (tag key) then some (drop 16 text) else none

length-tag : (key : Bytes) → length (tag key) ≡ 16
length-tag key =
    omega (arith, length-take 16 (key ++ replicate 16 0), length-append key (replicate 16 0))

pub tagged_open-append :
    (key nonce plain : Bytes) → tagged_open key nonce (tag key ++ plain) ≡ some plain
tagged_open-append key nonce plain = ground (
  arith,
  take-append (tag key) plain 16 (length-tag key),
  drop-append (tag key) plain 16 (length-tag key),
  bytes_eq_iff (tag key) (tag key),
)

pub length-tagged : (key nonce plain : Bytes) → length (tag key ++ plain) ≡ length plain + 16
length-tagged key nonce plain = omega (arith, length-append (tag key) plain, length-tag key)

abbrev pub tagging : Crypto
tagging = record {
  aead_seal = λ key nonce plain. tag key ++ plain;
  aead_open = tagged_open;
  overhead = 16;
  derive_key = λ material salt info. drop 16 info ++ material;
  open-seal = tagged_open-append;
  length-seal = length-tagged;
}

abbrev inviter : SecretCodec
inviter = new_secret_codec tagging (1 ∷ 2 ∷ []) role_inviter (10 ∷ 11 ∷ 12 ∷ 13 ∷ [])

abbrev joiner : SecretCodec
joiner = new_secret_codec tagging (1 ∷ 2 ∷ []) role_joiner (20 ∷ 21 ∷ 22 ∷ 23 ∷ [])

inviter-joiner-Expects : Expects tagging inviter joiner
unfolding new_secret_codec new_codec other_role bytes_eq window_of
inviter-joiner-Expects = record { key_is = refl; prefix_length = refl; not_ahead = omega arith }

abbrev pub two_frames : List (ℕ × Bytes)
two_frames = (0x40, b'h' ∷ b'i' ∷ []) ∷ (0x08, []) ∷ []

open_all-seal_all_example :
    open_all tagging joiner (seal_all tagging inviter two_frames)
    ≡ frames tagging inviter two_frames
unfolding new_secret_codec new_codec
open_all-seal_all_example =
    open_all-seal_all tagging inviter joiner two_frames inviter-joiner-Expects (omega arith)

abbrev first_wire : Bytes
first_wire = (seal tagging inviter 0x40 (b'h' ∷ [])).1

abbrev first_frame : Opened
first_frame = record { kind = 0x40; payload = b'h' ∷ []; sender = 10 ∷ 11 ∷ 12 ∷ 13 ∷ [] }

first_opens : (open_wire tagging joiner first_wire).1 ≡ ok first_frame
unfolding new_secret_codec new_codec other_role bytes_eq seal open_wire opened nonce_for
    accept_nonce window_of accept encode decode
first_opens = refl

-- Another frame of the same sender, one that it made up, one of its own; then the first again.
abbrev in_between : List Traffic
in_between =
    arrives (seal tagging (seal tagging inviter 0x40 []).0 0x41 []).1
    ∷ arrives (replicate 40 9)
    ∷ sends 0x42 []
    ∷ []

open_wire_again_example :
    (open_wire tagging
      (passes tagging (open_wire tagging joiner first_wire).0 in_between)
      first_wire).1
    ≡ err replayed
open_wire_again_example =
    open_wire_again tagging joiner first_wire first_frame in_between first_opens

-- A frame does not open at the side that sealed it.
no_reflection : (open_wire tagging inviter first_wire).1 ≡ err unauthenticated
unfolding new_secret_codec new_codec other_role bytes_eq seal open_wire nonce_for encode
no_reflection = refl
