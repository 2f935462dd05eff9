-- ===== src/Tui/Keys.antt =====
-- internal/tui/keys.go and `readKeys` of app.go: keys out of the bytes that a terminal sends.
pub mod Stable
pub mod Chunks
mod Tests
use vapora.Base.{
  ℕ, zero, suc, ◌+◌, Bool, true, false, not, ◌&&◌, ◌||◌, List, [], ◌∷◌, ◌++◌, ltb, leb, ◌==◌,
  if◌then◌else◌, length, drop, Bytes,
}
use vapora.Base.Utf8.{decode_rune, full_rune, rune_error}

pub data KeyKind : Type 0 where
  key_rune key_enter key_backspace key_left key_right key_home key_end key_page_up key_page_down :
      KeyKind
  key_interrupt key_unknown : KeyKind

pub record Key : Type 0 where
  pub kind : KeyKind
  pub value : ℕ

abbrev pub plain : KeyKind → Key
plain kind = record { kind = kind; value = 0 }

-- The last loop of `decodeEscape`, from the index `i`.
unfoldable pub swallow : ℕ → Bytes → ℕ
swallow i [] = 0
swallow i (b ∷ bs) =
    let later = swallow (i + 1) bs in if leb 0x40 b && leb b 0x7E then i + 1 else later

abbrev pub unknown_after : ℕ → Key × ℕ
unknown_after n = (plain key_unknown, n)

-- What follows `ESC [ 5` or `ESC [ 6`.
unfoldable pub decode_page : ℕ → Bytes → Key × ℕ
decode_page c [] = unknown_after 0
decode_page c (d ∷ rest) =
    if not (d == b'~')
    then unknown_after (swallow 2 (c ∷ d ∷ rest))
    else (plain (if c == b'5' then key_page_up else key_page_down), 4)

-- What follows the escape itself.
unfoldable pub decode_escape : Bytes → Key × ℕ
decode_escape (b ∷ c ∷ rest) =
    if not (b == b'[') && not (b == b'O')
    then unknown_after 1
    else if c == b'C'
    then (plain key_right, 3)
    else if c == b'D'
    then (plain key_left, 3)
    else if c == b'H'
    then (plain key_home, 3)
    else if c == b'F'
    then (plain key_end, 3)
    else if c == b'5' || c == b'6'
    then decode_page c rest
    else unknown_after (swallow 2 (c ∷ rest))
decode_escape (b ∷ []) = unknown_after 0
decode_escape [] = unknown_after 0

-- A character, unless more of it may come.
unfoldable pub decode_text : Bytes → Key × ℕ
decode_text buf =
    let (value, size) = decode_rune buf in
    if value == rune_error && size == 1 && not (full_rune buf)
    then unknown_after 0
    else (record { kind = key_rune; value = value }, size)

unfoldable pub decode_key : Bytes → Key × ℕ
decode_key [] = unknown_after 0
decode_key (a ∷ rest) =
    if a == 0x0D || a == 0x0A
    then (plain key_enter, 1)
    else if a == 0x7F || a == 0x08
    then (plain key_backspace, 1)
    else if a == 0x03
    then (plain key_interrupt, 1)
    else if a == 0x01
    then (plain key_home, 1)
    else if a == 0x05
    then (plain key_end, 1)
    else if a == 0x1B
    then decode_escape rest
    else if ltb a 0x20
    then unknown_after 1
    else decode_text (a ∷ rest)

-- An unknown key is not passed on.
abbrev pub emit : Key → List Key
emit key = elim key.kind [ key_unknown ↦ [] | _ ↦ key ∷ [] ]

-- The inner loop of `readKeys`, on fuel: the keys passed on, and the bytes left.
unfoldable pub drain : ℕ → Bytes → List Key × Bytes
drain zero buffer = ([], buffer)
drain (suc f) [] = ([], [])
drain (suc f) (a ∷ rest) =
    let (key, consumed) = decode_key (a ∷ rest) in
    let (keys, left) = drain f (drop consumed (a ∷ rest)) in
    if consumed == 0 then ([], a ∷ rest) else (emit key ++ keys, left)

-- `readKeys` over what each read gave.
unfoldable pub read_keys : Bytes → List Bytes → List Key × Bytes
read_keys buffer [] = ([], buffer)
read_keys buffer (chunk ∷ chunks) =
    let bytes = buffer ++ chunk in
    let (keys, left) = drain (length bytes) bytes in
    let (later, left') = read_keys left chunks in (keys ++ later, left')
