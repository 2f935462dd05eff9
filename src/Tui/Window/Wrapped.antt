-- ===== src/Tui/Window/Wrapped.antt =====
-- internal/tui/view.go: a text broken into lines is the same text, and the lines fit.
use vapora.Base.{
  ℕ, zero, suc, ◌+◌, ◌≤◌, ◌≡◌, refl, sym, ap, ◌∙◌, List, [], ◌∷◌, ◌++◌, ltb, leb, ◌==◌, length,
  take, drop, length-take, length-drop, take-append-drop, arith, Bool, true, false, if◌then◌else◌,
  Bool-cases, inl, inr, append_assoc, All, All-append,
}
use vapora.Base.Words.{concat}
use vapora.Tui.Window.{
  Line, rune_width, text_width, is_white, words_from, wrap_words, wrap, cut_lines, wrap_invite,
}

-- The lines put together again, a space between any two.
unfoldable pub spaced : List Line → Line
spaced [] = []
spaced (l ∷ []) = l
spaced (l ∷ m ∷ ls) = l ++ 0x20 ∷ spaced (m ∷ ls)

-- A text without the code point zero, which is the only one that takes no column.
abbrev pub Visible : Line → Type 0
Visible = All (λ r. 1 ≤ r)

abbrev Wide : Line → Type 0
Wide word = 1 ≤ text_width word

rune_width-pos : (r : ℕ) → 1 ≤ r → 1 ≤ rune_width r
unfolding rune_width
rune_width-pos r l = ground (arith, l)

pub text_width-append : (a b : Line) → text_width (a ++ b) ≡ text_width a + text_width b
unfolding text_width
text_width-append [] b = omega arith
text_width-append (x ∷ a) b = omega (arith, text_width-append a b)

Visible-Wide : (w : ℕ) (ws : Line) → Visible (w ∷ ws) → Wide (w ∷ ws)
unfolding text_width
Visible-Wide w ws (l, _) = omega (arith, rune_width-pos w l)

words_from-Wide : (word rs : Line) → Visible word → Visible rs → All Wide (words_from word rs)
unfolding words_from
words_from-Wide [] [] v u = tt
words_from-Wide (w ∷ ws) [] v u = (Visible-Wide w ws v, tt)
words_from-Wide [] (r ∷ rs) v (h, u) = elim (Bool-cases (is_white r)) [
  | inl e ↦ rw e (words_from-Wide [] rs tt u)
  | inr e ↦ rw e (words_from-Wide (r ∷ []) rs (h, tt) u)
]
words_from-Wide (w ∷ ws) (r ∷ rs) v (h, u) = elim (Bool-cases (is_white r)) [
  | inl e ↦ rw e (Visible-Wide w ws v, words_from-Wide [] rs tt u)
  | inr e ↦ rw e (
      words_from-Wide ((w ∷ ws) ++ r ∷ []) rs (All-append (λ r. 1 ≤ r) (w ∷ ws) (r ∷ []) v (h, tt))
        u)
]

spaced-glue :
    (x y : Line) (ws : List Line) → spaced ((x ++ 0x20 ∷ y) ∷ ws) ≡ x ++ 0x20 ∷ spaced (y ∷ ws)
unfolding spaced
spaced-glue x y [] = refl
spaced-glue x y (w ∷ ws) = append_assoc x (0x20 ∷ y) (0x20 ∷ spaced (w ∷ ws))

spaced_more :
    (x l m : Line) (lines ls ms : List Line)
    → lines ≡ l ∷ ls
    → spaced lines ≡ spaced (m ∷ ms)
    → spaced (x ∷ lines) ≡ spaced (x ∷ m ∷ ms)
unfolding spaced
spaced_more x l m lines ls ms e same =
    ap (λ (r : List Line). spaced (x ∷ r)) e
    ∙ ap (λ (r : Line). x ++ 0x20 ∷ r) (ap spaced (sym e) ∙ same)

spaced_cons : (x m : Line) (ms : List Line) → x ++ 0x20 ∷ spaced (m ∷ ms) ≡ spaced (x ∷ m ∷ ms)
unfolding spaced
spaced_cons x m ms = refl

-- A line that was begun is written before any other.
wrap_words-begun :
    (width : ℕ) (nothing : Bool) (c : ℕ) (cs : Line) (used : ℕ) (words : List Line)
    → All Wide words
    → 1 ≤ used
    → (l : Line) × (ls : List Line) × (wrap_words width nothing (c ∷ cs) used words ≡ l ∷ ls)
unfolding wrap_words
wrap_words-begun width nothing c cs used [] wide u = (c ∷ cs, [], refl)
wrap_words-begun width nothing c cs used (word ∷ words) (_, wide) u =
    let pos : (used == 0) ≡ false = ground (arith, u) in
    elim (Bool-cases (leb (used + 1 + text_width word) width)) [
      | inl e ↦
          rw (pos, e)
            (wrap_words-begun width nothing c (cs ++ 0x20 ∷ word) (used + (1 + text_width word))
              words wide (omega (arith, u)))
      | inr e ↦ rw (pos, e) (c ∷ cs, wrap_words width false word (text_width word) words, refl)
    ]

none_wide : {A : Type 0} → Wide [] → A
unfolding text_width
none_wide h = absurd (omega (arith, h))

spaced-begun :
    (width : ℕ) (nothing : Bool) (c : ℕ) (cs : Line) (used : ℕ) (words : List Line)
    → All Wide words
    → 1 ≤ used
    → spaced (wrap_words width nothing (c ∷ cs) used words) ≡ spaced ((c ∷ cs) ∷ words)
unfolding wrap_words
spaced-begun width nothing c cs used [] wide u = refl
spaced-begun width nothing c cs used ([] ∷ words) (h, wide) u = none_wide h
spaced-begun width nothing c cs used ((w ∷ ws) ∷ words) (h, wide) u =
    let size = text_width (w ∷ ws) in
    let pos : (used == 0) ≡ false = ground (arith, u) in
    elim (Bool-cases (leb (used + 1 + size) width)) [
      | inl e ↦
          rw (pos, e)
            (spaced-begun width nothing c (cs ++ 0x20 ∷ w ∷ ws) (used + (1 + size)) words wide
                (omega (arith, u))
              ∙ (spaced-glue (c ∷ cs) (w ∷ ws) words ∙ spaced_cons (c ∷ cs) (w ∷ ws) words))
      | inr e ↦
          let (l, ls, some_line) = wrap_words-begun width false w ws size words wide h in
          let rest = spaced-begun width false w ws size words wide h in
          rw (pos, e)
            (spaced_more (c ∷ cs) l (w ∷ ws) (wrap_words width false (w ∷ ws) size words) ls words
              some_line rest)
    ]

spaced-wrap_words :
    (width : ℕ) (words : List Line)
    → All Wide words
    → spaced (wrap_words width true [] 0 words) ≡ spaced words
unfolding wrap_words spaced
spaced-wrap_words width [] wide = refl
spaced-wrap_words width ([] ∷ words) (h, wide) = none_wide h
spaced-wrap_words width ((w ∷ ws) ∷ words) (h, wide) =
    spaced-begun width true w ws (text_width (w ∷ ws)) words wide h

-- Breaking a text into lines loses no word and keeps them in order: the lines with a space between
-- any two are the words with a space between any two.
pub spaced-wrap :
    (value : Line) (width : ℕ)
    → Visible value
    → spaced (wrap value width) ≡ spaced (words_from [] value)
unfolding wrap
spaced-wrap [] width v = unfold words_from spaced in refl
spaced-wrap (r ∷ rs) width v =
    spaced-wrap_words width (words_from [] (r ∷ rs)) (words_from-Wide [] (r ∷ rs) tt v)

-- No wider than `m`.
abbrev pub Within : ℕ → Line → Type 0
Within m line = text_width line ≤ m

wrap_words-Within :
    (width m : ℕ) (nothing : Bool) (current : Line) (used : ℕ) (words : List Line)
    → width ≤ m
    → All (Within m) words
    → used ≡ text_width current
    → Within m current
    → All (Within m) (wrap_words width nothing current used words)
unfolding wrap_words
wrap_words-Within width m true [] used [] l fits e c = (unfold text_width in omega arith, tt)
wrap_words-Within width m false [] used [] l fits e c = tt
wrap_words-Within width m nothing (x ∷ xs) used [] l fits e c = (c, tt)
wrap_words-Within width m nothing current used (word ∷ words) l (h, fits) e c =
    let size = text_width word in
    let joined = text_width-append current word in
    let spread = text_width-append current (0x20 ∷ word) in
    let space : text_width (0x20 ∷ word) ≡ 1 + size = unfold text_width rune_width in omega arith in
    let empty_or = Bool-cases (used == 0) in
    let fits_or = Bool-cases (leb (used + 1 + size) width) in
    elim empty_or [
      | inl z ↦
          let none : used ≡ 0 = ground (arith, z) in
          rw z (
            wrap_words-Within width m nothing (current ++ word) size words l fits
              (omega (arith, joined, e, none)) (omega (arith, joined, e, none, h)))
      | inr z ↦ elim fits_or [
        | inl f ↦
            let small : used + 1 + size ≤ width = ground (arith, f) in
            rw (z, f)
              (wrap_words-Within width m nothing (current ++ 0x20 ∷ word) (used + (1 + size)) words
                l fits (omega (arith, spread, space, e))
                (omega (arith, spread, space, e, small, l)))
        | inr f ↦ rw (z, f) (c, wrap_words-Within width m false word size words l fits refl h)
      ]
    ]

-- No line is wider than the width, unless a single word is.
pub wrap-Within :
    (value : Line) (width m : ℕ)
    → width ≤ m
    → All (Within m) (words_from [] value)
    → All (Within m) (wrap value width)
unfolding wrap text_width
wrap-Within [] width m l fits = (omega arith, tt)
wrap-Within (r ∷ rs) width m l fits =
    wrap_words-Within width m true [] 0 (words_from [] (r ∷ rs)) l fits refl (omega arith)

cut_lines_lem :
    (f width : ℕ) (runes : Line)
    → 1 ≤ width
    → length runes ≤ f
    → (concat (cut_lines f width runes) ≡ runes)
      × All (λ line. length line ≤ width) (cut_lines f width runes)
unfolding cut_lines concat
cut_lines_lem zero width [] w l = (refl, tt)
cut_lines_lem zero width (r ∷ rs) w l = absurd (omega (arith, l))
cut_lines_lem (suc f) width [] w l = (refl, tt)
cut_lines_lem (suc f) width (r ∷ rs) w l =
    let cut = if ltb (length (r ∷ rs)) width then length (r ∷ rs) else width in
    let some_cut : 1 ≤ cut = ground (arith, w) in
    let bound : cut ≤ width = ground arith in
    let shorter = length-drop cut (r ∷ rs) in
    let (same, fit) =
      cut_lines_lem f width (drop cut (r ∷ rs)) w (omega (arith, shorter, some_cut, l)) in
    (
      ap (λ (rest : Line). take cut (r ∷ rs) ++ rest) same ∙ take-append-drop cut (r ∷ rs),
      (omega (arith, length-take cut (r ∷ rs), bound), fit),
    )

-- An invite that is drawn at all is drawn whole: the lines one behind the other are the invite,
-- and each fits the width.
pub wrap_invite-concat :
    (invite : Line) (width : ℕ)
    → 8 ≤ width
    → (concat (wrap_invite invite width) ≡ invite)
      × All (λ line. length line ≤ width) (wrap_invite invite width)
unfolding wrap_invite
wrap_invite-concat [] width l = unfold concat in (refl, tt)
wrap_invite-concat (r ∷ rs) width l =
    let wide : ltb width 8 ≡ false = ground (arith, l) in
    let some_rune : (length (r ∷ rs) == 0) ≡ false = ground arith in
    rw (some_rune, wide)
      (cut_lines_lem (length (r ∷ rs)) width (r ∷ rs) (omega (arith, l)) (omega arith))
