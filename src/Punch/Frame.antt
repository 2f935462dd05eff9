-- ===== src/Punch/Frame.antt =====
-- pkg/punch/frame.go, roomframe.go and padding.go: a kind byte, a payload, and random filler.
pub mod Padding
use vapora.Base.{
  ℕ, ◌+◌, ◌%◌, ◌≤◌, ◌<◌, ◌≡◌, refl, Bool, true, false, ◌||◌, Option, none, some, [], ◌∷◌, ◌++◌,
  ◌==◌, if◌then◌else◌, arith, length, length-append, Bytes, Result, ok, err,
}
use vapora.Base.Wire.{u16_at}

abbrev pub kind_punch : ℕ
kind_punch = 0x01

abbrev pub kind_ack : ℕ
kind_ack = 0x02

abbrev pub kind_ping : ℕ
kind_ping = 0x06

abbrev pub kind_pong : ℕ
kind_pong = 0x07

abbrev pub kind_bye : ℕ
kind_bye = 0x08

abbrev pub kind_data : ℕ
kind_data = 0x40

abbrev pub kind_hello : ℕ
kind_hello = 0x10

abbrev pub kind_welcome : ℕ
kind_welcome = 0x11

abbrev pub kind_roster : ℕ
kind_roster = 0x12

abbrev pub kind_intro : ℕ
kind_intro = 0x13

abbrev pub kind_full : ℕ
kind_full = 0x14

unfoldable pub encode : ℕ → Bytes → Bytes
encode kind payload = kind ∷ payload

-- `none` is `errEmptyFrame`, the only error.
unfoldable pub decode : Bytes → Option (ℕ × Bytes)
decode [] = none
decode (kind ∷ payload) = some (kind, payload)

pub data Layer : Type 0 where
  layer_room layer_pair : Layer

abbrev pub layer_eq : Layer → Layer → Bool
layer_eq layer_room layer_room = true
layer_eq layer_pair layer_pair = true
layer_eq _ _ = false

-- Which key a frame is allowed to arrive under.
unfoldable pub allowed_under : ℕ → Layer → Bool
allowed_under kind under =
    if kind == kind_hello || kind == kind_full
    then layer_eq under layer_room
    else layer_eq under layer_pair

abbrev pub max_padding : ℕ
max_padding = 255

-- The two reads of crypto/rand that one call of `padded` makes, each of which may fail. The second
-- is asked for a number of bytes.
pub record Rand : Type 0 where
  pub two : Option Bytes
  pub fill : ℕ → Option Bytes

unfoldable pub padded : Rand → Bytes → Bytes
padded rand prefix = elim rand.two [
  | none ↦ prefix
  | some drawn ↦ elim (rand.fill (u16_at drawn 0 % (max_padding + 1))) [
    | none ↦ prefix
    | some filler ↦ prefix ++ filler
  ]
]

abbrev pub pad : Rand → Bytes
pad rand = padded rand []
