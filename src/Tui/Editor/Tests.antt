-- ===== src/Tui/Editor/Tests.antt =====
-- A letter put in the middle, and one taken out again.
use vapora.Base.{ℕ, ◌≡◌, refl, List, [], ◌∷◌}
use vapora.Tui.Keys.{Key, key_rune, key_left, key_home, key_right, key_backspace, plain}
use vapora.Tui.Editor.{Editor, new_editor, apply, apply_all}
use vapora.Tui.Editor.Zipper.{shown, type_all, apply_all-new_editor}

abbrev letter : ℕ → Key
letter value = record { kind = key_rune; value = value }

abbrev typed : List Key
typed =
    letter b'a'
    ∷ letter b'c'
    ∷ plain key_left
    ∷ letter b'b'
    ∷ plain key_home
    ∷ plain key_right
    ∷ plain key_backspace
    ∷ []

typed_line :
    ◌≡◌ {A = Editor} (apply_all typed new_editor) (record { runes = b'b' ∷ b'c' ∷ []; cursor = 0 })
unfolding apply_all apply
typed_line = refl

apply_all-new_editor_example :
    apply_all typed new_editor ≡ shown (type_all typed (record { before = []; behind = [] }))
apply_all-new_editor_example = apply_all-new_editor typed
