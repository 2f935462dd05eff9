-- ===== src/Tui/Window/Fitted.antt =====
-- `fitName` of internal/tui/roster.go. A slice of a list past its end is a panic, which is none.
use vapora.Base.{
  ℕ, zero, suc, ◌+◌, ◌-◌, ◌≤◌, ◌≡◌, refl, ◌∙◌, true, false, ◌&&◌, Option, none, some, [], ◌∷◌, ◌++◌,
  ltb, leb, ◌==◌, if◌then◌else◌, length, take, replicate, arith, All, Bool-cases, inl, inr,
}
use vapora.Tui.Window.{Line, rune_width, text_width}
use vapora.Tui.Window.Wrapped.{text_width-append}

abbrev pub with_mark : Line → Line
with_mark shown = shown ++ 0x2026 ∷ 0x20 ∷ []

-- The loop that takes one character after another off the end.
unfoldable pub shorten : ℕ → Line → ℕ → Option Line
shorten zero runes gutter = none
shorten (suc cut) runes gutter =
    let shorter = shorten cut runes gutter in
    let shown = take (suc cut) runes in
    if leb (suc cut) (length runes)
    then if ltb gutter (text_width shown + 2) && ltb 1 (suc cut)
      then shorter
      else some (with_mark shown)
    else none

unfoldable pub fit_name : Line → ℕ → Option Line
fit_name name gutter =
    let cut = if ltb (gutter - 2) 1 then 1 else gutter - 2 in
    if length name == 0
    then some (replicate gutter 0x20)
    else if leb (text_width name) gutter
    then some (name ++ replicate (gutter - text_width name) 0x20)
    else shorten cut name gutter

blanks-width : (n : ℕ) → text_width (replicate n 0x20) ≡ n
unfolding text_width rune_width
blanks-width zero = refl
blanks-width (suc n) = omega (arith, blanks-width n)

-- Characters of one column each.
abbrev pub Narrow : Line → Type 0
Narrow = All (λ r. rune_width r ≡ 1)

Narrow-width : (name : Line) → Narrow name → text_width name ≡ length name
unfolding text_width
Narrow-width [] n = refl
Narrow-width (r ∷ rs) (h, n) = omega (arith, h, Narrow-width rs n)

Narrow-take : (n : ℕ) (name : Line) → Narrow name → n ≤ length name → text_width (take n name) ≡ n
unfolding text_width
Narrow-take zero name h l = refl
Narrow-take (suc n) [] h l = absurd (omega (arith, l))
Narrow-take (suc n) (r ∷ rs) (h, hs) l = omega (arith, h, Narrow-take n rs hs (omega (arith, l)))

mark_width : (shown : Line) → text_width (with_mark shown) ≡ text_width shown + 2
mark_width shown =
    text_width-append shown (0x2026 ∷ 0x20 ∷ []) ∙ (unfold text_width rune_width in omega arith)

padded-width :
    (name : Line) (gutter : ℕ)
    → leb (text_width name) gutter ≡ true
    → text_width (name ++ replicate (gutter - text_width name) 0x20) ≡ gutter
padded-width name gutter f =
    let fits : text_width name ≤ gutter = ground (arith, f) in
    omega (
      arith,
      fits,
      text_width-append name (replicate (gutter - text_width name) 0x20),
      blanks-width (gutter - text_width name),
    )

shorten-first :
    (c : ℕ) (name : Line) (gutter : ℕ)
    → Narrow name
    → suc c ≤ length name
    → suc c + 2 ≡ gutter
    → shorten (suc c) name gutter ≡ some (with_mark (take (suc c) name))
unfolding shorten
shorten-first c name gutter n l e =
    let inside : leb (suc c) (length name) ≡ true = ground (arith, l) in
    let wide = Narrow-take (suc c) name n l in
    let fits : ltb gutter (text_width (take (suc c) name) + 2) ≡ false = ground (arith, wide, e) in
    rw (inside, fits) refl

-- A name of characters of one column each takes exactly the columns of the gutter, of three or
-- more, longer or shorter as it may be, and no slice goes past its end.
pub fit_name-width :
    (name : Line) (gutter : ℕ)
    → Narrow name
    → 3 ≤ gutter
    → (shown : Line) × (fit_name name gutter ≡ some shown) × (text_width shown ≡ gutter)
unfolding fit_name
fit_name-width name gutter n g = elim (Bool-cases (length name == 0)) [
  | inl z ↦ rw z (replicate gutter 0x20, refl, blanks-width gutter)
  | inr z ↦ elim (Bool-cases (leb (text_width name) gutter)) [
    | inl f ↦
        let padding = replicate (gutter - text_width name) 0x20 in
        rw (z, f) (name ++ padding, refl, padded-width name gutter f)
    | inr f ↦
        let room : ltb (gutter - 2) 1 ≡ false = ground (arith, g) in
        let c : gutter - 2 ≡ suc (gutter - 3) = omega (arith, g) in
        let long : suc (gutter - 3) ≤ length name = ground (arith, f, Narrow-width name n) in
        rw (z, f, room, c)
          (
            with_mark (take (suc (gutter - 3)) name),
            shorten-first (gutter - 3) name gutter n long (omega (arith, g)),
            mark_width _ ∙ omega (arith, g, Narrow-take (suc (gutter - 3)) name n long),
          )
  ]
]
