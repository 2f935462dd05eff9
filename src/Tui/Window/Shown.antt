-- ===== src/Tui/Window/Shown.antt =====
-- `wrapMessages` of internal/tui/view.go breaks what pkg/text/safe.go has made of a line.
use vapora.Base.{
  ℕ, ◌+◌, ◌≤◌, ◌≡◌, some, List, [], ◌∷◌, leb, arith, Bool-cases, Option-cases, inl, inr,
}
use vapora.Text.{Piece, sanitise, code_of, safe_from, safe_limit, safe}
use vapora.Tui.Window.{wrap, words_from}
use vapora.Tui.Window.Wrapped.{Visible, spaced, spaced-wrap}

sanitise-pos : (current replacement : ℕ) → sanitise current ≡ some replacement → 1 ≤ replacement
unfolding sanitise
sanitise-pos current replacement e = ground (arith, e)

safe_from-Visible : (body rendered : ℕ) (ps : List Piece) → Visible (safe_from body rendered ps)
unfolding safe_from
safe_from-Visible body rendered [] = tt
safe_from-Visible body rendered (p ∷ ps) =
    let skipped = safe_from-Visible body rendered ps in
    let kept = safe_from-Visible body (rendered + 1) ps in
    elim (Bool-cases (leb body rendered)) [
      | inl e ↦ rw e (omega arith, (omega arith, (omega arith, tt)))
      | inr e ↦ elim (Option-cases (sanitise (code_of p))) [
        | inl n ↦ rw (e, n) skipped
        | inr (r, s) ↦ rw (e, s) (sanitise-pos (code_of p) r s, kept)
      ]
    ]

-- The lines that a message is broken into once it is safe to show, with a space between any two,
-- are its words with a space between any two, whatever the width: none is lost, split or moved.
pub spaced-wrap-safe :
    (line : List Piece) (width : ℕ)
    → spaced (wrap (safe line) width) ≡ spaced (words_from [] (safe line))
spaced-wrap-safe line width =
    spaced-wrap (safe line) width (unfold safe_limit in safe_from-Visible _ 0 line)
