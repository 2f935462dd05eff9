-- ===== src/Text/Sanitised.antt =====
-- pkg/text/safe.go: what is made safe is valid, stays as it is, and holds nothing a terminal obeys.
use vapora.Base.{
  ℕ, ◌+◌, ◌-◌, ◌≤◌, ◌≡◌, inl, inr, refl, Bool, true, false, ◌&&◌, ◌||◌, some, List, [], ◌∷◌, ltb,
  leb, ◌==◌, length, map, All, arith, Option-cases, Bool-cases,
}
use Prim.Native.Nat.{max}
use vapora.Text.{
  Piece, rune, broken, code_of, max_rendered, marker, sanitise, safe_from, safe_limit, safe,
  line_eq, valid,
}

-- What the terminal obeys or the eye misreads.
abbrev pub is_control : ℕ → Bool
is_control c =
    ltb c 0x20
    || c == 0x7F
    || (leb 0x80 c && leb c 0x9F)
    || (leb 0x202A c && leb c 0x202E)
    || (leb 0x2066 c && leb c 0x2069)

sanitise_clean : (c r : ℕ) → sanitise c ≡ some r → is_control r ≡ false
unfolding sanitise
sanitise_clean c r h = ground arith

sanitise_keeps : (c : ℕ) → is_control c ≡ false → sanitise c ≡ some c
unfolding sanitise
sanitise_keeps c h = ground arith

safe_from-All :
    (body k : ℕ) (line : List Piece) → All (λ c. is_control c ≡ false) (safe_from body k line)
unfolding safe_from
safe_from-All body k [] = tt
safe_from-All body k (p ∷ ps) = elim (Option-cases (sanitise (code_of p))) [
  | inl e ↦ ground (arith, safe_from-All body k ps)
  | inr (r, e) ↦ ground (arith, safe_from-All body (k + 1) ps, sanitise_clean (code_of p) r e)
]

length-safe_from :
    (body k : ℕ) (line : List Piece) → k ≤ body → length (safe_from body k line) + k ≤ body + 3
unfolding safe_from
length-safe_from body k [] h = omega arith
length-safe_from body k (p ∷ ps) h = elim (Option-cases (sanitise (code_of p))) [
  | inl e ↦ ground (arith, length-safe_from body k ps h)
  | inr (r, e) ↦ elim (Bool-cases (leb body k)) [
    | inl cut ↦ ground arith
    | inr on ↦ ground (arith, length-safe_from body (k + 1) ps (ground arith))
  ]
]

safe_from-safe_from :
    (body k : ℕ) (line : List Piece)
    → safe_from body k (map rune (safe_from body k line)) ≡ safe_from body k line
unfolding safe_from
safe_from-safe_from body k [] = refl
safe_from-safe_from body k (p ∷ ps) = elim (Option-cases (sanitise (code_of p))) [
  | inl e ↦ ground (arith, safe_from-safe_from body k ps)
  | inr (r, e) ↦
      let again = sanitise_keeps r (sanitise_clean (code_of p) r e) in
      ground (arith, again, safe_from-safe_from body (k + 1) ps)
]

line_eq_refl : (line : List Piece) → line_eq line line ≡ true
line_eq_refl [] = refl
line_eq_refl (rune n ∷ ps) = ground (arith, line_eq_refl ps)
line_eq_refl (broken b ∷ ps) = ground (arith, line_eq_refl ps)

length-map : (rs : List ℕ) → length (map rune rs) ≡ length rs
length-map [] = refl
length-map (r ∷ rs) = omega (arith, length-map rs)

-- Of any bytes at all, what `Safe` returns has no control character and no bidirectional override
-- in it, at most 1024 characters, and is what `Valid` accepts on the other side.
pub valid-safe :
    (line : List Piece)
    → All (λ c. is_control c ≡ false) (safe line)
      × (length (safe line) ≤ 1024)
      × (valid (map rune (safe line)) ≡ true)
unfolding valid safe_limit
valid-safe line =
    let n : ℕ = max_rendered - length marker in
    (
      safe_from-All n 0 line,
      omega (arith, length-safe_from n 0 line (omega arith)),
      ground (
        arith,
        length-map (safe_from n 0 line),
        length-safe_from n 0 line (omega arith),
        safe_from-safe_from n 0 line,
        line_eq_refl (map rune (safe_from n 0 line)),
      ),
    )

-- What comes back has no more characters than the limit, or three if the limit is less than that.
pub length-safe_limit :
    (line : List Piece) (limit : ℕ) → length (safe_limit line limit) ≤ max limit 3
unfolding safe_limit
length-safe_limit line limit = ground (arith, length-safe_from (limit - 3) 0 line (omega arith))

safe_from_keeps :
    (body k : ℕ) (rs : List ℕ)
    → All (λ c. is_control c ≡ false) rs
    → length rs + k ≤ body
    → safe_from body k (map rune rs) ≡ rs
unfolding safe_from
safe_from_keeps body k [] h l = refl
safe_from_keeps body k (r ∷ rs) (h, hs) l =
    ground (arith, sanitise_keeps r h, safe_from_keeps body (k + 1) rs hs (omega arith))

-- A line without such characters, and short enough to leave room for the marker, is shown as it is.
pub safe_limit_keeps :
    (rs : List ℕ) (limit : ℕ)
    → All (λ c. is_control c ≡ false) rs
    → length rs + 3 ≤ limit
    → safe_limit (map rune rs) limit ≡ rs
unfolding safe_limit
safe_limit_keeps rs limit h l = safe_from_keeps (limit - 3) 0 rs h (omega arith)
