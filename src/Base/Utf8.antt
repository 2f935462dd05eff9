-- ===== src/Base/Utf8.antt =====
-- Go's utf8.DecodeRune and FullRune.
use vapora.Base.{
  ℕ, ◌+◌, ◌*◌, ◌%◌, ◌≡◌, refl, Bool, true, false, not, ◌&&◌, ◌||◌, [], ◌∷◌, ◌++◌, ltb, leb, ◌==◌,
  if◌then◌else◌, length, Bytes, ◌≤◌, arith,
}

abbrev pub rune_error : ℕ
rune_error = 0xFFFD

-- How many bytes a character has that begins with this one, and none if none does.
abbrev pub rune_size : ℕ → ℕ
rune_size b =
    if ltb b 0x80
    then 1
    else if ltb b 0xC2
    then 0
    else if ltb b 0xE0
    then 2
    else if ltb b 0xF0
    then 3
    else if ltb b 0xF5
    then 4
    else 0

abbrev pub continues : ℕ → Bool
continues b = leb 0x80 b && leb b 0xBF

-- Which second bytes go with a first one.
abbrev pub second_fits : ℕ → ℕ → Bool
second_fits first b =
    leb (if first == 0xE0 then 0xA0 else if first == 0xF0 then 0x90 else 0x80) b
    && leb b (if first == 0xED then 0x9F else if first == 0xF4 then 0x8F else 0xBF)

unfoldable pub decode_2 : ℕ → Bytes → ℕ × ℕ
decode_2 a (b ∷ bs) = if second_fits a b then (a % 32 * 64 + b % 64, 2) else (rune_error, 1)
decode_2 a [] = (rune_error, 1)

unfoldable pub decode_3 : ℕ → Bytes → ℕ × ℕ
decode_3 a (b ∷ c ∷ cs) =
    if second_fits a b && continues c
    then (a % 16 * 4096 + b % 64 * 64 + c % 64, 3)
    else (rune_error, 1)
decode_3 a (b ∷ []) = (rune_error, 1)
decode_3 a [] = (rune_error, 1)

unfoldable pub decode_4 : ℕ → Bytes → ℕ × ℕ
decode_4 a (b ∷ c ∷ d ∷ ds) =
    if second_fits a b && continues c && continues d
    then (a % 8 * 262144 + b % 64 * 4096 + c % 64 * 64 + d % 64, 4)
    else (rune_error, 1)
decode_4 a (b ∷ c ∷ []) = (rune_error, 1)
decode_4 a (b ∷ []) = (rune_error, 1)
decode_4 a [] = (rune_error, 1)

-- The character at the front and how many bytes it takes.
unfoldable pub decode_rune : Bytes → ℕ × ℕ
decode_rune [] = (rune_error, 0)
decode_rune (a ∷ rest) =
    if rune_size a == 1
    then (a, 1)
    else if rune_size a == 2
    then decode_2 a rest
    else if rune_size a == 3
    then decode_3 a rest
    else if rune_size a == 4
    then decode_4 a rest
    else (rune_error, 1)

unfoldable pub full_2 : Bytes → Bool
full_2 [] = false
full_2 (b ∷ bs) = true

unfoldable pub full_3 : ℕ → Bytes → Bool
full_3 a [] = false
full_3 a (b ∷ []) = not (second_fits a b)
full_3 a (b ∷ c ∷ cs) = true

unfoldable pub full_4 : ℕ → Bytes → Bool
full_4 a [] = false
full_4 a (b ∷ []) = not (second_fits a b)
full_4 a (b ∷ c ∷ []) = not (second_fits a b) || not (continues c)
full_4 a (b ∷ c ∷ d ∷ ds) = true

-- Whether the bytes begin with a whole character, or with what can be none.
unfoldable pub full_rune : Bytes → Bool
full_rune [] = false
full_rune (a ∷ rest) =
    if rune_size a == 2
    then full_2 rest
    else if rune_size a == 3
    then full_3 a rest
    else if rune_size a == 4
    then full_4 a rest
    else true

decode_2-append :
    (a : ℕ) (bs more : Bytes) → full_2 bs ≡ true → decode_2 a (bs ++ more) ≡ decode_2 a bs
unfolding full_2 decode_2
decode_2-append a [] more h = absurd (cc)
decode_2-append a (b ∷ bs) more h = refl

decode_3-append :
    (a : ℕ) (bs more : Bytes) → full_3 a bs ≡ true → decode_3 a (bs ++ more) ≡ decode_3 a bs
unfolding full_3 decode_3
decode_3-append a [] more h = absurd (cc)
decode_3-append a (b ∷ []) [] h = refl
decode_3-append a (b ∷ []) (m ∷ ms) h = ground arith
decode_3-append a (b ∷ c ∷ cs) more h = refl

decode_4-append :
    (a : ℕ) (bs more : Bytes) → full_4 a bs ≡ true → decode_4 a (bs ++ more) ≡ decode_4 a bs
unfolding full_4 decode_4
decode_4-append a [] more h = absurd (cc)
decode_4-append a (b ∷ []) [] h = refl
decode_4-append a (b ∷ []) (m ∷ []) h = refl
decode_4-append a (b ∷ []) (m ∷ n ∷ ms) h = ground arith
decode_4-append a (b ∷ c ∷ []) [] h = refl
decode_4-append a (b ∷ c ∷ []) (m ∷ ms) h = ground arith
decode_4-append a (b ∷ c ∷ d ∷ ds) more h = refl

-- More bytes change nothing about a character that is all there.
pub decode_rune-append :
    (bs more : Bytes) → full_rune bs ≡ true → decode_rune (bs ++ more) ≡ decode_rune bs
unfolding decode_rune full_rune
decode_rune-append [] more h = absurd (cc)
decode_rune-append (a ∷ rest) more h =
    ground
      (arith, decode_2-append a rest more, decode_3-append a rest more, decode_4-append a rest more)

pub decode_rune-size :
    (a : ℕ) (rest : Bytes)
    → (1 ≤ (decode_rune (a ∷ rest)).1) × ((decode_rune (a ∷ rest)).1 ≤ length rest + 1)
unfolding decode_rune decode_2 decode_3 decode_4
decode_rune-size a [] = ground arith
decode_rune-size a (b ∷ []) = ground arith
decode_rune-size a (b ∷ c ∷ []) = ground arith
decode_rune-size a (b ∷ c ∷ d ∷ ds) = ground arith

full_2-append : (bs more : Bytes) → full_2 bs ≡ true → full_2 (bs ++ more) ≡ true
unfolding full_2
full_2-append [] more h = absurd (cc)
full_2-append (b ∷ bs) more h = refl

full_3-append : (a : ℕ) (bs more : Bytes) → full_3 a bs ≡ true → full_3 a (bs ++ more) ≡ true
unfolding full_3
full_3-append a [] more h = absurd (cc)
full_3-append a (b ∷ []) [] h = h
full_3-append a (b ∷ []) (m ∷ ms) h = refl
full_3-append a (b ∷ c ∷ cs) more h = refl

full_4-append : (a : ℕ) (bs more : Bytes) → full_4 a bs ≡ true → full_4 a (bs ++ more) ≡ true
unfolding full_4
full_4-append a [] more h = absurd (cc)
full_4-append a (b ∷ []) [] h = h
full_4-append a (b ∷ []) (m ∷ []) h = ground arith
full_4-append a (b ∷ []) (m ∷ n ∷ ms) h = refl
full_4-append a (b ∷ c ∷ []) [] h = h
full_4-append a (b ∷ c ∷ []) (m ∷ ms) h = refl
full_4-append a (b ∷ c ∷ d ∷ ds) more h = refl

pub full_rune-append : (bs more : Bytes) → full_rune bs ≡ true → full_rune (bs ++ more) ≡ true
unfolding full_rune
full_rune-append [] more h = absurd (cc)
full_rune-append (a ∷ rest) more h =
    ground (arith, full_2-append rest more, full_3-append a rest more, full_4-append a rest more)

-- What is not all there reads as an error of one byte.
pub decode_rune-partial :
    (a : ℕ) (rest : Bytes) → full_rune (a ∷ rest) ≡ false → decode_rune (a ∷ rest) ≡ (rune_error, 1)
unfolding decode_rune full_rune decode_2 decode_3 decode_4 full_2 full_3 full_4
decode_rune-partial a [] h = ground arith
decode_rune-partial a (b ∷ []) h = ground arith
decode_rune-partial a (b ∷ c ∷ []) h = ground arith
decode_rune-partial a (b ∷ c ∷ d ∷ ds) h = ground arith
