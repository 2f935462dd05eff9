-- ===== src/Tui/Window/Lines.antt =====
-- internal/tui/view.go and roster.go: what `window` shows of the lines, and how much room there is
-- for them.
use vapora.Base.{
  ℕ, ◌+◌, ◌-◌, ◌≤◌, ◌≡◌, sym, ap, ◌∙◌, List, ◌++◌, ltb, length, take, drop, length-take,
  length-drop, take-append-drop, min, arith, if◌then◌else◌, append_assoc,
}
use vapora.Tui.Window.{window, header_rows, base_header_rows, min_conversation, footer_height}

three_pieces :
    {A : Type 0}
    → (start end : ℕ) (lines : List A)
    → take start (take end lines) ++ (drop start (take end lines) ++ drop end lines) ≡ lines
three_pieces start end lines =
    sym (append_assoc (take start (take end lines)) (drop start (take end lines)) (drop end lines))
    ∙ (ap (λ (l : List _). l ++ drop end lines) (take-append-drop start (take end lines))
        ∙ take-append-drop end lines)

piece_lengths :
    {A : Type 0}
    → (lines : List A) (area kept : ℕ) → kept ≤ length lines - area
    → (length (take (length lines - kept - area) (take (length lines - kept) lines))
        ≡ length lines - kept - area)
      × (length (drop (length lines - kept) lines) ≡ kept)
      × (length (drop (length lines - kept - area) (take (length lines - kept) lines))
          ≡ min area (length lines))
piece_lengths lines area kept l =
    let end = length lines - kept in
    let t = length-take end lines in
    (
      omega (arith, l, t, length-take (end - area) (take end lines)),
      omega (arith, l, length-drop end lines),
      omega (arith, l, t, length-drop (end - area) (take end lines)),
    )

-- The window is a piece of the lines, with as many lines above it as it says and as many below it
-- as it is scrolled; it fills the area unless there are fewer lines than that, and it is scrolled
-- no further than asked for.
pub window-pieces :
    {A : Type 0}
    → (lines : List A) (area scroll : ℕ)
    → ((above : List A) × (below : List A) × (above ++ ((window lines area scroll).0 ++ below)
          ≡ lines)
        × (length above ≡ (window lines area scroll).2)
        × (length below ≡ (window lines area scroll).1))
      × (length (window lines area scroll).0 ≡ min area (length lines))
      × ((window lines area scroll).1 ≤ scroll)
unfolding window
window-pieces lines area scroll =
    let kept = if ltb (length lines - area) scroll then length lines - area else scroll in
    let end = length lines - kept in
    let bound : kept ≤ length lines - area = ground arith in
    let (above_len, below_len, seen_len) = piece_lengths lines area kept bound in
    (
      (
        take (end - area) (take end lines),
        drop end lines,
        three_pieces (end - area) end lines,
        above_len,
        below_len,
      ),
      seen_len,
      ground arith,
    )

-- Unless the terminal is too small to be drawn on at all, the header leaves room for the footer
-- and for four lines of the conversation, however many members there are, and it never takes more
-- rows than it has members to list.
pub header_rows-room :
    (members height : ℕ)
    → base_header_rows + footer_height + min_conversation ≤ height
    → (header_rows members height + footer_height + min_conversation ≤ height)
      × (base_header_rows ≤ header_rows members height)
      × (header_rows members height ≤ base_header_rows + (members - 1))
unfolding header_rows
header_rows-room members height l = (ground (arith, l), ground arith, ground arith)
