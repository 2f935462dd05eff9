-- ===== src/Tui/Keys/Stable.antt =====
-- internal/tui/keys.go: a key that was read is the same key with more bytes behind it.
use vapora.Base.{
  ℕ, ◌+◌, ◌≤◌, ◌≡◌, refl, false, [], ◌∷◌, ◌++◌, ◌==◌, length, Bytes, arith, inl, inr, Bool-cases,
}
use vapora.Base.Utf8.{
  full_rune, decode_rune-append, decode_rune-size, full_rune-append, decode_rune-partial,
}
use vapora.Tui.Keys.{swallow, decode_page, decode_escape, decode_text, decode_key}

swallow-append :
    (i : ℕ) (bs more : Bytes) → (swallow i bs == 0) ≡ false → swallow i (bs ++ more) ≡ swallow i bs
unfolding swallow
swallow-append i [] more h = absurd (cc)
swallow-append i (b ∷ bs) more h = ground (arith, swallow-append (i + 1) bs more)

swallow-le : (i : ℕ) (bs : Bytes) → swallow i bs ≤ i + length bs
unfolding swallow
swallow-le i [] = omega arith
swallow-le i (b ∷ bs) = ground (arith, swallow-le (i + 1) bs)

decode_page-append :
    (c : ℕ) (rest more : Bytes)
    → ((decode_page c rest).1 == 0) ≡ false
    → decode_page c (rest ++ more) ≡ decode_page c rest
unfolding decode_page
decode_page-append c [] more h = absurd (cc)
decode_page-append c (d ∷ rest) more h = ground (arith, swallow-append 2 (c ∷ d ∷ rest) more)

decode_page-le : (c : ℕ) (rest : Bytes) → (decode_page c rest).1 ≤ length rest + 3
unfolding decode_page
decode_page-le c [] = omega arith
decode_page-le c (d ∷ rest) = ground (arith, swallow-le 2 (c ∷ d ∷ rest))

decode_escape-append :
    (rest more : Bytes)
    → ((decode_escape rest).1 == 0) ≡ false
    → decode_escape (rest ++ more) ≡ decode_escape rest
unfolding decode_escape
decode_escape-append [] more h = absurd (cc)
decode_escape-append (b ∷ []) more h = absurd (cc)
decode_escape-append (b ∷ c ∷ rest) more h =
    ground (arith, decode_page-append c rest more, swallow-append 2 (c ∷ rest) more)

decode_escape-le : (rest : Bytes) → (decode_escape rest).1 ≤ length rest + 1
unfolding decode_escape
decode_escape-le [] = omega arith
decode_escape-le (b ∷ []) = omega arith
decode_escape-le (b ∷ c ∷ rest) = ground (arith, decode_page-le c rest, swallow-le 2 (c ∷ rest))

decode_text-append :
    (a : ℕ) (rest more : Bytes)
    → ((decode_text (a ∷ rest)).1 == 0) ≡ false
    → decode_text (a ∷ (rest ++ more)) ≡ decode_text (a ∷ rest)
unfolding decode_text
decode_text-append a rest more h = elim (Bool-cases (full_rune (a ∷ rest))) [
  | inl f ↦
      rw (decode_rune-append (a ∷ rest) more f) (rw (f, full_rune-append (a ∷ rest) more f) refl)
  | inr f ↦ absurd (ground (arith, decode_rune-partial a rest f))
]

decode_text-le : (a : ℕ) (rest : Bytes) → (decode_text (a ∷ rest)).1 ≤ length rest + 1
unfolding decode_text
decode_text-le a rest = ground (arith, decode_rune-size a rest)

-- A key that was read is the same key, of as many bytes, whatever comes behind them; only what
-- took no bytes may become another.
pub decode_key-append :
    (bs more : Bytes) → ((decode_key bs).1 == 0) ≡ false → decode_key (bs ++ more) ≡ decode_key bs
unfolding decode_key
decode_key-append [] more h = absurd (cc)
decode_key-append (a ∷ rest) more h =
    ground (arith, decode_escape-append rest more, decode_text-append a rest more)

pub decode_key-le : (bs : Bytes) → (decode_key bs).1 ≤ length bs
unfolding decode_key
decode_key-le [] = omega arith
decode_key-le (a ∷ rest) = ground (arith, decode_escape-le rest, decode_text-le a rest)
