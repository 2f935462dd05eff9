-- ===== src/Chat/Lines.antt =====
-- pkg/chat/chat.go: which lines that are said are heard.
use vapora.Base.{
  ◌/◌, ◌%◌, ℕ, zero, suc, ◌+◌, ◌-◌, ◌≤◌, ◌<◌, ◌≡◌, refl, true, false, List, [], ◌∷◌, ◌++◌, ltb, leb,
  map, take, arith, Bytes, ap, inl, inr, Bool-cases,
}
use vapora.Text.{Piece, rune, broken, safe, valid, line_eq}
use vapora.Text.Sanitised.{valid-safe}
use vapora.Chat.{
  max_line, utf8, width, size, slice, safe_line, say, decode, receive, on_line, unheard,
}

-- A line that is at most 2048 bytes long once it is safe is heard as exactly that, by the check that
-- the other side makes.
pub receive-say :
    (line : List Piece)
    → size (map rune (safe line)) ≤ max_line
    → receive (say line) ≡ on_line (map rune (safe line))
unfolding receive say decode safe_line
receive-say line h =
    let short : ltb max_line (size (map rune (safe line))) ≡ false = ground arith in
    rw short (ground (arith, (valid-safe line).2))

-- Half a character is in no string that is safe.
line_eq-broken :
    (xs : List ℕ) (ys : List ℕ) (b : ℕ) (zs : List Piece)
    → line_eq (map rune xs) (map rune ys ++ broken b ∷ zs) ≡ false
line_eq-broken [] [] b zs = refl
line_eq-broken [] (y ∷ ys) b zs = refl
line_eq-broken (x ∷ xs) [] b zs = refl
line_eq-broken (x ∷ xs) (y ∷ ys) b zs = ground (arith, line_eq-broken xs ys b zs)

valid-broken :
    (ys : List ℕ) (b : ℕ) (zs : List Piece) → valid (map rune ys ++ broken b ∷ zs) ≡ false
unfolding valid
valid-broken ys b zs =
    let value = map rune ys ++ broken b ∷ zs in ground (arith, line_eq-broken (safe value) ys b zs)

utf8-starts : (r : ℕ) → (b : ℕ) × (bs : Bytes) × (utf8 r ≡ b ∷ bs)
unfolding utf8
utf8-starts r = elim (Bool-cases (ltb r 0x80)) [
  | inl e ↦ (r, [], rw e refl)
  | inr e ↦ elim (Bool-cases (ltb r 0x800)) [
    | inl f ↦ (0xC0 + r / 64, (0x80 + r % 64) ∷ [], rw (e, f) refl)
    | inr f ↦ elim (Bool-cases (ltb r 0x10000)) [
      | inl g ↦ (0xE0 + r / 4096, (0x80 + r / 64 % 64) ∷ (0x80 + r % 64) ∷ [], rw (e, f, g) refl)
      | inr g ↦ (
        0xF0 + r / 262144,
        (0x80 + r / 4096 % 64) ∷ (0x80 + r / 64 % 64) ∷ (0x80 + r % 64) ∷ [],
        rw (e, f, g) refl,
      )
    ]
  ]
]

slice-cut :
    (left : ℕ) (before after : List ℕ) (r : ℕ)
    → size (map rune before) < left
    → left < size (map rune before) + width r
    → (b : ℕ) × (zs : List Piece) × (slice left (before ++ r ∷ after)
        ≡ map rune before ++ broken b ∷ zs)
unfolding slice size
slice-cut zero before after r h k = absurd (omega arith)
slice-cut (suc left) [] after r h k =
    let (b, bs, e) = utf8-starts r in
    let wide : leb (width r) (suc left) ≡ false = ground arith in
    (b, map broken (take left bs), rw wide (rw e refl))
slice-cut (suc left) (x ∷ before) after r h k =
    let fits : leb (width x) (suc left) ≡ true = ground arith in
    let (b, zs, e) = slice-cut (suc left - width x) before after r (omega arith) (omega arith) in
    (b, zs, rw fits (ap (◌∷◌ (rune x)) e))

size-append :
    (xs ys : List ℕ) → size (map rune (xs ++ ys)) ≡ size (map rune xs) + size (map rune ys)
unfolding size
size-append [] ys = omega arith
size-append (x ∷ xs) ys = omega (arith, size-append xs ys)

-- But a line whose 2048th byte falls inside a character, once it is safe, is said and not heard:
-- what is cut off leaves half a character, which the other side's check refuses.
pub receive-say_cut :
    (line : List Piece) (before after : List ℕ) (r : ℕ)
    → safe line ≡ before ++ r ∷ after
    → size (map rune before) < max_line
    → max_line < size (map rune before) + width r
    → receive (say line) ≡ unheard
unfolding receive say decode safe_line
receive-say_cut line before after r e h k =
    let (b, zs, s) = slice-cut max_line before after r h k in
    let long : ltb max_line (size (map rune (before ++ r ∷ after))) ≡ true =
      ground (arith, size-append before (r ∷ after), size_cons r after) in
    rw (e, long, s) (ground (arith, valid-broken before b zs))
  where
    size_cons :
        (r : ℕ) (after : List ℕ) → size (map rune (r ∷ after)) ≡ width r + size (map rune after)
    size_cons r after = unfold size in refl
