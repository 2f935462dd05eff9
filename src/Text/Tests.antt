-- ===== src/Text/Tests.antt =====
-- Concrete lines for pkg/text/safe.go.
use vapora.Base.{◌≤◌, ◌≡◌, refl, true, false, List, [], ◌∷◌, length, map, All}
use vapora.Text.{Piece, rune, broken, safe, safe_limit, safe_from, sanitise, valid}
use vapora.Text.Sanitised.{is_control, valid-safe}

-- An escape sequence, a tab and a stray byte.
abbrev hostile : List Piece
hostile = rune 0x1B ∷ rune b'[' ∷ rune b'2' ∷ rune b'J' ∷ rune 0x09 ∷ broken 0xFF ∷ []

hostile_run : safe hostile ≡ b'[' ∷ b'2' ∷ b'J' ∷ b' ' ∷ 0xFFFD ∷ []
unfolding safe_limit safe_from sanitise
hostile_run = refl

valid-safe_example :
    All (λ c. is_control c ≡ false) (safe hostile)
    × (length (safe hostile) ≤ 1024)
    × (valid (map rune (safe hostile)) ≡ true)
valid-safe_example = valid-safe hostile

-- A limit of two gives three characters.
narrow_run : safe_limit hostile 2 ≡ b'.' ∷ b'.' ∷ b'.' ∷ []
unfolding safe_limit safe_from
narrow_run = refl
