-- ===== src/Text.antt =====
-- pkg/text/safe.go: what a line from the network looks like once it is safe to show. A string is
-- what Go's `range` makes of it: code points, and bytes that are part of none.
pub mod Sanitised
mod Tests
use vapora.Base.{
  ℕ, ◌+◌, ◌-◌, Bool, true, false, ◌&&◌, ◌||◌, Option, none, some, List, [], ◌∷◌, ltb, leb, ◌==◌,
  if◌then◌else◌, length, map,
}

pub data Piece : Type 0 where
  rune : ℕ → Piece
  broken : ℕ → Piece

abbrev pub rune_error : ℕ
rune_error = 0xFFFD

-- The value that `range` yields.
abbrev pub code_of : Piece → ℕ
code_of (rune n) = n
code_of (broken b) = rune_error

abbrev pub piece_eq : Piece → Piece → Bool
piece_eq (rune n) (rune m) = n == m
piece_eq (broken b) (broken c) = b == c
piece_eq _ _ = false

abbrev pub max_rendered : ℕ
max_rendered = 1024

abbrev pub marker : List ℕ
marker = b'.' ∷ b'.' ∷ b'.' ∷ []

unfoldable pub sanitise : ℕ → Option ℕ
sanitise current =
    if current == 0x09
    then some 0x20
    else if ltb current 0x20 || current == 0x7F
    then none
    else if leb 0x80 current && leb current 0x9F
    then none
    else if leb 0x202A current && leb current 0x202E
    then none
    else if leb 0x2066 current && leb current 0x2069
    then none
    else some current

-- The loop of `SafeLimit`, with what was rendered so far.
unfoldable pub safe_from : ℕ → ℕ → List Piece → List ℕ
safe_from body rendered [] = []
safe_from body rendered (p ∷ ps) =
    let skipped = safe_from body rendered ps in
    let kept = safe_from body (rendered + 1) ps in
    if leb body rendered
    then marker
    else elim (sanitise (code_of p)) [ none ↦ skipped | some replacement ↦ replacement ∷ kept ]

-- A body below zero is zero, as the code has it.
unfoldable pub safe_limit : List Piece → ℕ → List ℕ
safe_limit line max = safe_from (max - length marker) 0 line

abbrev pub safe : List Piece → List ℕ
safe line = safe_limit line max_rendered

abbrev pub line_eq : List Piece → List Piece → Bool
line_eq [] [] = true
line_eq (p ∷ ps) (q ∷ qs) = piece_eq p q && line_eq ps qs
line_eq _ _ = false

unfoldable pub valid : List Piece → Bool
valid value = leb (length value) max_rendered && line_eq (map rune (safe value)) value
