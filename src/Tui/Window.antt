-- ===== src/Tui/Window.antt =====
-- internal/tui/view.go, roster.go and screen.go: which lines of a conversation are drawn, and how
-- a text is broken into lines. A string is the list of its code points; `Scroll` is never below
-- zero, since `scroll` of app.go keeps it there.
pub mod Lines
pub mod Wrapped
pub mod Shown
pub mod Fitted
mod Tests
use vapora.Base.{
  ℕ, zero, suc, ◌+◌, ◌-◌, ◌/◌, Bool, true, false, ◌&&◌, ◌||◌, List, [], ◌∷◌, ◌++◌, ltb, leb, ◌==◌,
  if◌then◌else◌, length, take, drop,
}

abbrev pub Line : Type 0
Line = List ℕ

abbrev pub between : ℕ → ℕ → ℕ → Bool
between low high value = leb low value && leb value high

-- `runeWidth`
unfoldable pub rune_width : ℕ → ℕ
rune_width value =
    if value == 0
    then 0
    else if ltb value 0x1100
    then 1
    else if between 0x1100 0x115F value
        || between 0x2E80 0xA4CF value
        || between 0xAC00 0xD7A3 value
        || between 0xF900 0xFAFF value
        || between 0xFE30 0xFE6F value
        || between 0xFF00 0xFF60 value
        || between 0xFFE0 0xFFE6 value
        || between 0x1F300 0x1FAFF value
        || between 0x20000 0x3FFFD value
    then 2
    else 1

unfoldable pub text_width : Line → ℕ
text_width [] = 0
text_width (r ∷ rs) = rune_width r + text_width rs

-- `unicode.IsSpace`
unfoldable pub is_white : ℕ → Bool
is_white r =
    between 0x09 0x0D r
    || r == 0x20
    || r == 0x85
    || r == 0xA0
    || r == 0x1680
    || between 0x2000 0x200A r
    || r == 0x2028
    || r == 0x2029
    || r == 0x202F
    || r == 0x205F
    || r == 0x3000

-- `strings.Fields`, with the word read so far.
unfoldable pub words_from : Line → Line → List Line
words_from [] [] = []
words_from (w ∷ ws) [] = (w ∷ ws) ∷ []
words_from word (r ∷ rs) =
    let next = words_from [] rs in
    let longer = words_from (word ++ r ∷ []) rs in
    if is_white r then elim word [ [] ↦ next | ◌∷◌ w ws ↦ (w ∷ ws) ∷ next ] else longer

-- The loop of `wrap`: the line being written and its width, over the words still to come. What
-- follows the loop is the first clause; `nothing` says that no line was written yet.
unfoldable pub wrap_words : ℕ → Bool → Line → ℕ → List Line → List Line
wrap_words width nothing current used [] = elim current [
  | [] ↦ if nothing then [] ∷ [] else []
  | ◌∷◌ c cs ↦ (c ∷ cs) ∷ []
]
wrap_words width nothing current used (word ∷ words) =
    let size = text_width word in
    let first = wrap_words width nothing (current ++ word) size words in
    let same = wrap_words width nothing (current ++ 0x20 ∷ word) (used + (1 + size)) words in
    let fresh = wrap_words width false word size words in
    if used == 0 then first else if leb (used + 1 + size) width then same else current ∷ fresh

unfoldable pub wrap : Line → ℕ → List Line
wrap [] width = [] ∷ []
wrap (r ∷ rs) width = wrap_words width true [] 0 (words_from [] (r ∷ rs))

-- The loop of `wrapInvite`, on fuel.
unfoldable pub cut_lines : ℕ → ℕ → Line → List Line
cut_lines zero width runes = []
cut_lines (suc f) width [] = []
cut_lines (suc f) width (r ∷ rs) =
    let cut = if ltb (length (r ∷ rs)) width then length (r ∷ rs) else width in
    take cut (r ∷ rs) ∷ cut_lines f width (drop cut (r ∷ rs))

unfoldable pub wrap_invite : Line → ℕ → List Line
wrap_invite invite width =
    if length invite == 0 || ltb width 8 then [] else cut_lines (length invite) width invite

-- `window`, for a scroll that is not below zero: the slice, the scroll, and how many lines stand
-- above the slice.
unfoldable pub window : {A : Type 0} → List A → ℕ → ℕ → List A × ℕ × ℕ
window lines area scroll =
    let max_scroll = length lines - area in
    let kept = if ltb max_scroll scroll then max_scroll else scroll in
    let end = length lines - kept in
    let start = end - area in (drop start (take end lines), kept, start)

abbrev pub base_header_rows : ℕ
base_header_rows = 6

abbrev pub min_conversation : ℕ
min_conversation = 4

abbrev pub footer_height : ℕ
footer_height = 6

-- `headerRows`, for so many members. A bound below zero is below every number of rows.
unfoldable pub header_rows : ℕ → ℕ → ℕ
header_rows members height =
    let rows = base_header_rows + (members - 1) in
    let most = height - footer_height - min_conversation in
    let kept = if ltb most rows then most else rows in
    if ltb kept base_header_rows then base_header_rows else kept

abbrev pub min_gutter : ℕ
min_gutter = 10

abbrev pub max_gutter : ℕ
max_gutter = 20

unfoldable pub widest_of : ℕ → List Line → ℕ
widest_of widest [] = widest
widest_of widest (name ∷ names) =
    let size = text_width name in
    let rest = widest_of size names in
    let rest' = widest_of widest names in if ltb widest size then rest else rest'

-- `gutterFor`
unfoldable pub gutter_for : Line → List Line → ℕ → ℕ
gutter_for me members width =
    let third = width / 3 in
    let widest = widest_of (text_width me) members in
    let most = if ltb third max_gutter then third else max_gutter in
    let high = if ltb most min_gutter then min_gutter else most in
    if ltb (widest + 2) min_gutter
    then min_gutter
    else if ltb high (widest + 2)
    then high
    else widest + 2
