-- ===== src/Chat.antt =====
-- pkg/chat: conversations over what the transport moves. A payload is its tag byte and the string
-- behind it, which is what Go's `range` makes of it, as in pkg/text; a slice of a string may cut a
-- character, of which its bytes are left.
pub mod Lines
pub mod Naming
pub mod Group
mod Tests
use vapora.Base.{
  ℕ, ◌+◌, ◌-◌, ◌*◌, ◌/◌, ◌%◌, Bool, true, false, not, ◌&&◌, ◌||◌, Option, none, some, List, [], ◌∷◌,
  ◌++◌, ltb, leb, ◌==◌, if◌then◌else◌, map, take, Bytes,
}
use vapora.Text.{Piece, rune, broken, safe, valid}

abbrev pub tag_line : ℕ
tag_line = 0x01

abbrev pub tag_typing : ℕ
tag_typing = 0x02

abbrev pub max_line : ℕ
max_line = 2048

-- UTF-8, as Go writes it.
unfoldable pub utf8 : ℕ → Bytes
utf8 r =
    if ltb r 0x80
    then r ∷ []
    else if ltb r 0x800
    then (0xC0 + r / 64) ∷ (0x80 + r % 64) ∷ []
    else if ltb r 0x10000
    then (0xE0 + r / 4096) ∷ (0x80 + r / 64 % 64) ∷ (0x80 + r % 64) ∷ []
    else (0xF0 + r / 262144) ∷ (0x80 + r / 4096 % 64) ∷ (0x80 + r / 64 % 64) ∷ (0x80 + r % 64) ∷ []

unfoldable pub width : ℕ → ℕ
width r = if ltb r 0x80 then 1 else if ltb r 0x800 then 2 else if ltb r 0x10000 then 3 else 4

abbrev pub piece_width : Piece → ℕ
piece_width (rune r) = width r
piece_width (broken b) = 1

-- `len` of a string.
unfoldable pub size : List Piece → ℕ
size [] = 0
size (p ∷ ps) = piece_width p + size ps

-- `s[:n]` of a string of whole characters: the bytes of one that is cut belong to none.
unfoldable pub slice : ℕ → List ℕ → List Piece
slice left [] = []
slice left (r ∷ rs) =
    let rest = slice (left - width r) rs in
    if leb (width r) left then rune r ∷ rest else map broken (take left (utf8 r))

-- `safeLine`
unfoldable pub safe_line : List Piece → List Piece
safe_line line =
    let s = safe line in if ltb max_line (size (map rune s)) then slice max_line s else map rune s

-- A payload, empty or a tag and a string.
pub data Payload : Type 0 where
  nothing : Payload
  tagged : ℕ → List Piece → Payload

-- What a conversation passes on.
pub data Heard : Type 0 where
  unheard : Heard
  on_line : List Piece → Heard
  on_typing : Bool → Heard

-- `Say` and `SetTyping`, as what they send.
unfoldable pub say : List Piece → Payload
say text = tagged tag_line (safe_line text)

unfoldable pub typing_payload : Bool → Payload
typing_payload active = tagged tag_typing (rune (if active then b'1' else b'0') ∷ [])

-- `decode`: the tag and the string of a payload that is not too long.
unfoldable pub decode : Payload → Option (ℕ × List Piece)
decode nothing = none
decode (tagged tag body) = if ltb (max_line + 1) (size body + 1) then none else some (tag, body)

-- `typing`: whether the first byte is a one.
unfoldable pub typing : List Piece → Bool
typing [] = false
typing (rune r ∷ ps) = r == b'1'
typing (broken b ∷ ps) = false

-- `receive` of a conversation that has both handlers: what is called.
unfoldable pub receive : Payload → Heard
receive payload = elim (decode payload) [
  | none ↦ unheard
  | some (tag, body) ↦
      if tag == tag_line
      then (if valid body then on_line body else unheard)
      else if tag == tag_typing
      then on_typing (typing body)
      else unheard
]
