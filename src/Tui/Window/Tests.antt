-- ===== src/Tui/Window/Tests.antt =====
-- Short lines for internal/tui/view.go.
use vapora.Base.{ℕ, ◌≤◌, ◌≡◌, refl, List, [], ◌∷◌, ◌++◌, length, min}
use vapora.Text.{Piece, rune, safe}
use vapora.Tui.Window.{Line, wrap, wrap_words, words_from, text_width, rune_width, is_white, window}
use vapora.Tui.Window.Lines.{window-pieces}
use vapora.Tui.Window.Wrapped.{spaced}
use vapora.Tui.Window.Shown.{spaced-wrap-safe}

abbrev said : List Piece
said = rune b'h' ∷ rune b'i' ∷ rune 0x20 ∷ rune 0x20 ∷ rune 0x4E16 ∷ rune 0x20 ∷ rune b'y' ∷ []

abbrev text : Line
text = b'h' ∷ b'i' ∷ 0x20 ∷ 0x20 ∷ 0x4E16 ∷ 0x20 ∷ b'y' ∷ []

wrapped : wrap text 5 ≡ (b'h' ∷ b'i' ∷ 0x20 ∷ 0x4E16 ∷ []) ∷ (b'y' ∷ []) ∷ []
unfolding wrap wrap_words words_from text_width rune_width is_white
wrapped = refl

spaced-wrap-safe_example : spaced (wrap (safe said) 5) ≡ spaced (words_from [] (safe said))
spaced-wrap-safe_example = spaced-wrap-safe said 5

abbrev lines : List ℕ
lines = 1 ∷ 2 ∷ 3 ∷ 4 ∷ 5 ∷ []

window_run : window lines 2 1 ≡ (3 ∷ 4 ∷ [], 1, 2)
unfolding window
window_run = refl

window-pieces_example :
    ((above : List ℕ) × (below : List ℕ) × (above ++ ((window lines 2 9).0 ++ below) ≡ lines)
      × (length above ≡ (window lines 2 9).2)
      × (length below ≡ (window lines 2 9).1))
    × (length (window lines 2 9).0 ≡ min 2 (length lines))
    × ((window lines 2 9).1 ≤ 9)
window-pieces_example = window-pieces lines 2 9
