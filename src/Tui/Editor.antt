-- ===== src/Tui/Editor.antt =====
-- internal/tui/keys.go, from `Editor` on: the line that is being typed and its cursor.
pub mod Zipper
mod Tests
use vapora.Base.{
  ℕ, ◌+◌, ◌-◌, Bool, true, false, List, [], ◌∷◌, ◌++◌, ltb, if◌then◌else◌, length, take, drop,
}
use vapora.Tui.Keys.{Key, key_rune, key_backspace, key_left, key_right, key_home, key_end}

pub record Editor : Type 0 where
  pub runes : List ℕ
  pub cursor : ℕ

abbrev pub new_editor : Editor
new_editor = record { runes = []; cursor = 0 }

unfoldable pub apply : Key → Editor → Editor
apply key e = elim key.kind [
  | key_rune ↦ record {
    runes = take e.cursor e.runes ++ key.value ∷ drop e.cursor e.runes;
    cursor = e.cursor + 1;
  }
  | key_backspace ↦
      if ltb 0 e.cursor
      then record {
        runes = take (e.cursor - 1) e.runes ++ drop e.cursor e.runes;
        cursor = e.cursor - 1;
      }
      else e
  | key_left ↦ if ltb 0 e.cursor then record e { cursor = e.cursor - 1 } else e
  | key_right ↦ if ltb e.cursor (length e.runes) then record e { cursor = e.cursor + 1 } else e
  | key_home ↦ record e { cursor = 0 }
  | key_end ↦ record e { cursor = length e.runes }
  | _ ↦ e
]

unfoldable pub is_empty : Editor → Bool
is_empty e = elim e.runes [ [] ↦ true | ◌∷◌ _ _ ↦ false ]

-- `Take`
unfoldable pub take_line : Editor → List ℕ × Editor
take_line e = (e.runes, record { runes = []; cursor = 0 })

unfoldable pub apply_all : List Key → Editor → Editor
apply_all [] e = e
apply_all (key ∷ keys) e = apply_all keys (apply key e)
